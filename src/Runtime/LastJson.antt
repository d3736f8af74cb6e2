-- ===== src/Runtime/LastJson.antt =====
-- The choice of the result in an agent's output (src/mutmuas/runtime.py: _last_json).
use mathlib.Core.List.{reverse, reverse-cons}
use mutmuas.Prelude.{
  String, ◌≡◌, refl, Bool, false, Option, none, some, List, [], ◌∷◌, ◌++◌, any, is_some, arith, ◌⊎◌,
  inl, inr, Option-cases, is_nil,
}
use mutmuas.Json.{Json, Fields}
use mutmuas.Runtime.Output.{candidates, dict_of, first_dict, last_json}

module _ (loads : String → Option Json) where
  abbrev is_dict : String → Bool
  is_dict s = is_some (dict_of (loads s))

  -- The object that the last text of a list gives of those that give one.
  pub record IsLast (l : List String) (d : Fields) : Type 0 where
    pub before : List String
    pub chosen : String
    pub after : List String
    pub place : l ≡ before ++ chosen ∷ after
    pub parsed : dict_of (loads chosen) ≡ some d
    pub later : any is_dict after ≡ false

  abbrev pub IsChosen : List String → Option Fields → Type 0
  IsChosen l found =
      ((found ≡ none) × (any is_dict l ≡ false)) ⊎ ((d : Fields) × (found ≡ some d) × IsLast l d)

  first_dict-append :
      (xs ys : List String)
      → first_dict loads (xs ++ ys)
        ≡ elim (first_dict loads xs) [ some d ↦ some d | none ↦ first_dict loads ys ]
  unfolding first_dict
  first_dict-append [] ys = refl
  first_dict-append (x ∷ xs) ys = ground (arith, first_dict-append xs ys)

  at_end :
      (xs : List String) (x : String)
      → first_dict loads (reverse (x ∷ xs))
        ≡ elim (first_dict loads (reverse xs)) [ some d ↦ some d | none ↦ dict_of (loads x) ]
  unfolding first_dict
  at_end xs x = rw (reverse-cons, first_dict-append (reverse xs) (x ∷ [])) (ground arith)

  IsLast-cons : (x : String) {l : List String} {d : Fields} → IsLast l d → IsLast (x ∷ l) d
  IsLast-cons x h = record {
    before = x ∷ h.before;
    chosen = h.chosen;
    after = h.after;
    place = rw h.place refl;
    parsed = h.parsed;
    later = h.later;
  }

  first_dict-reverse : (l : List String) → IsChosen l (first_dict loads (reverse l))
  unfolding first_dict
  first_dict-reverse [] = inl (refl, refl)
  first_dict-reverse (x ∷ xs) = elim (first_dict-reverse xs) [
    | inr (d, e, last) ↦ inr (d, rw (at_end, e) refl, IsLast-cons x last)
    | inl (e, rest) ↦ elim (Option-cases (dict_of (loads x))) [
      | inl n ↦ inl (rw (at_end, e) n, rw n rest)
      | inr (d, s) ↦ inr (
        d,
        rw (at_end, e) s,
        record { before = []; chosen = x; after = xs; place = refl; parsed = s; later = rest },
      )
    ]
  ]

  -- Of a text that is not empty, the result is the object that the last of its candidates gives that gives
  -- one, and there is none exactly when no candidate gives an object.
  pub last_json_choice :
      (text : String) → is_nil text ≡ false → IsChosen (candidates text) (last_json loads text)
  unfolding last_json
  last_json_choice text h = rw h (first_dict-reverse (candidates text))
