-- ===== src/Json.antt =====
-- JSON values as `json.loads` builds them, and the Python operations on them that the source uses:
-- truth value, `dict.get`, item assignment (src/mutmuas/protocol.py, node.py).
pub mod Lookup
use mutmuas.Prelude.{
  ℕ, String, Bool, true, false, not, ◌||◌, Option, none, some, List, [], ◌∷◌, nat_eq, ◌==◌,
  if◌then◌else◌,
}

-- An `int` or a finite `float` is a decimal fraction; `json.loads` accepts NaN and the infinities.
pub data Number : Type 0 where
  decimal : Bool → ℕ → ℕ → Number
  infinite : Bool → Number
  nan : Number

-- `number <= 0`
unfoldable pub le_zero : Number → Bool
le_zero (decimal negative digits scale) = negative || nat_eq digits 0
le_zero (infinite negative) = negative
le_zero nan = false

abbrev pub int : ℕ → Number
int n = decimal false n 0

mutual
  pub data Json : Type 0 where
    null : Json
    bool : Bool → Json
    num : Number → Json
    str : String → Json
    arr : Items → Json
    obj : Fields → Json

  pub data Items : Type 0 where
    nil : Items
    cons : Json → Items → Items

  -- A `dict`: the keys differ, in the order of insertion.
  pub data Fields : Type 0 where
    end : Fields
    field : String → Json → Fields → Fields

-- bool(number)
abbrev pub nonzero : Number → Bool
nonzero (decimal negative digits scale) = not (nat_eq digits 0)
nonzero _ = true

-- bool(value)
abbrev pub truthy : Json → Bool
truthy null = false
truthy (bool b) = b
truthy (num n) = nonzero n
truthy (str s) = not (s == "")
truthy (arr nil) = false
truthy (arr (cons _ _)) = true
truthy (obj end) = false
truthy (obj (field _ _ _)) = true

-- value in (None, "")
abbrev pub is_blank : Json → Bool
is_blank null = true
is_blank (str s) = s == ""
is_blank _ = false

-- value in (None, "", [], {})
abbrev pub is_empty : Json → Bool
is_empty null = true
is_empty (str s) = s == ""
is_empty (arr nil) = true
is_empty (obj end) = true
is_empty _ = false

-- a or b
abbrev pub or_else : Json → Json → Json
or_else a b = if truthy a then a else b

-- `d.get(key)` with `None` for a missing key, and `d.get(key, default)`
abbrev pub get_or : Fields → String → Json → Json
get_or end key default = default
get_or (field k v rest) key default = if k == key then v else get_or rest key default

abbrev pub get : Fields → String → Json
get d key = get_or d key null

-- key in d
abbrev pub has_key : Fields → String → Bool
has_key end key = false
has_key (field k v rest) key = k == key || has_key rest key

-- d[key] = value
abbrev pub put : Fields → String → Json → Fields
put end key value = field key value end
put (field k v rest) key value =
    if k == key then field k value rest else field k v (put rest key value)

-- {k: v for k, v in d.items() if k != key}
abbrev pub without : Fields → String → Fields
without end key = end
without (field k v rest) key = if k == key then rest else field k v (without rest key)

-- list.append
abbrev pub append_item : Items → Json → Items
append_item nil x = cons x nil
append_item (cons y ys) x = cons y (append_item ys x)

abbrev pub items : List Json → Items
items [] = nil
items (x ∷ xs) = cons x (items xs)

-- The text of a JSON string; none of another value.
abbrev pub text_of : Json → Option String
text_of (str s) = some s
text_of _ = none
