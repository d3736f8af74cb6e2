-- ===== src/Glob.antt =====
-- `fnmatch.fnmatchcase` of Python's standard library, by which `accept_from` is written
-- (src/mutmuas/config.py): `*`, `?`, `[seq]` and `[!seq]`.
pub mod Fuel
pub mod Patterns
use Prim.Native.Char.{code}
use mutmuas.Prelude.{
  ℕ, suc, zero, String, Bool, true, false, not, ◌&&◌, ◌||◌, Option, none, some, List, [], ◌∷◌, any,
  leb, nat_eq, if◌then◌else◌,
}

abbrev pub codes : String → List ℕ
codes String.[] = []
codes (String.◌∷◌ c s) = code c ∷ codes s

-- A range of codes; a single one is a range from itself to itself.
pub data Piece : Type 0 where
  star : Piece
  any_char : Piece
  lit : ℕ → Piece
  class : Bool → List (ℕ × ℕ) → Piece

abbrev in_range : ℕ → ℕ × ℕ → Bool
in_range c (lo, hi) = leb lo c && leb c hi

abbrev in_class : Bool → List (ℕ × ℕ) → ℕ → Bool
in_class negated ranges c = elim negated [
  | true ↦ not (any (in_range c) ranges)
  | false ↦ any (in_range c) ranges
]

-- The ranges of a set, from what stands between its brackets.
abbrev ranges_of : List ℕ → List (ℕ × ℕ)
ranges_of [] = []
ranges_of (a ∷ []) = (a, a) ∷ []
ranges_of (a ∷ b ∷ []) = (a, a) ∷ (b, b) ∷ []
ranges_of (a ∷ b ∷ c ∷ r) =
    let range = (a, c) ∷ ranges_of r in
    let single = (a, a) ∷ ranges_of (b ∷ c ∷ r) in if nat_eq b b'-' then range else single

-- What stands before the first `]`, and what behind it.
abbrev pub until_bracket : List ℕ → Option (List ℕ × List ℕ)
until_bracket [] = none
until_bracket (c ∷ s) = elim (until_bracket s) [
  | none ↦ (if nat_eq c b']' then some ([], s) else none)
  | some (a, b) ↦ (if nat_eq c b']' then some ([], s) else some (c ∷ a, b))
]

-- A `]` that stands first in a set is one of its characters.
abbrev pub set_body : List ℕ → Option (List ℕ × List ℕ)
set_body [] = none
set_body (c ∷ s) = elim (until_bracket s) [ none ↦ none | some (a, b) ↦ some (c ∷ a, b) ]

abbrev pub body_of : List ℕ → Option (List ℕ × List ℕ)
body_of [] = none
body_of (c ∷ s) = if nat_eq c b']' then set_body (c ∷ s) else until_bracket (c ∷ s)

-- The set behind a `[`, if a `]` closes it.
abbrev pub set_of : List ℕ → Option (Piece × List ℕ)
set_of [] = none
set_of (c ∷ s) =
    if nat_eq c b'!'
    then elim (body_of s) [ none ↦ none | some (a, b) ↦ some (class true (ranges_of a), b) ]
    else elim (body_of (c ∷ s)) [ none ↦ none | some (a, b) ↦ some (class false (ranges_of a), b) ]

-- The pieces of a pattern, on fuel: each step reads at least one character.
unfoldable pub pieces : ℕ → List ℕ → List Piece
pieces zero s = []
pieces (suc f) [] = []
pieces (suc f) (c ∷ s) =
    let rest = pieces f s in
    if nat_eq c b'*'
    then star ∷ rest
    else if nat_eq c b'?'
    then any_char ∷ rest
    else if nat_eq c b'['
    then elim (set_of s) [ none ↦ lit c ∷ rest | some (p, r) ↦ p ∷ pieces f r ]
    else lit c ∷ rest

abbrev pub matches_one : Piece → ℕ → Bool
matches_one star c = false
matches_one any_char c = true
matches_one (lit d) c = nat_eq c d
matches_one (class n r) c = in_class n r c

-- A `*` takes characters until the rest of the pattern fits: `fits` is the match of that rest.
abbrev pub after_star : (List ℕ → Bool) → List ℕ → Bool
after_star fits [] = fits []
after_star fits (c ∷ s) = fits (c ∷ s) || after_star fits s

abbrev pub one_then : Piece → (List ℕ → Bool) → List ℕ → Bool
one_then p fits [] = false
one_then p fits (c ∷ s) = matches_one p c && fits s

abbrev pub ends : List ℕ → Bool
ends [] = true
ends (_ ∷ _) = false

unfoldable pub match_pieces : List Piece → List ℕ → Bool
match_pieces [] = ends
match_pieces (star ∷ p) = after_star (match_pieces p)
match_pieces (q ∷ p) = one_then q (match_pieces p)

abbrev pub count : List ℕ → ℕ
count [] = 0
count (_ ∷ s) = suc (count s)

unfoldable pub fnmatchcase : String → String → Bool
unfolding pieces match_pieces
fnmatchcase name pattern =
    match_pieces (pieces (suc (count (codes pattern))) (codes pattern)) (codes name)
