-- ===== src/Bus/Matching.antt =====
-- The wildcard relation of NATS, and `_subject_match` (src/mutmuas/bus.py).
use mutmuas.Prelude.{
  String, ◌≡◌, refl, ◌↔◌, inl, inr, true, List, [], ◌∷◌, arith, ◌==◌, eq_iff, Bool-cases,
}
use mutmuas.Bus.Split.{split}
use mutmuas.Bus.{match_tokens, subject_match}

-- `*` stands for one token, `>` for one or more that end the subject, any other token for itself.
pub data Matches : List String → List String → Type 0 where
  done : Matches [] []
  rest : {t x : String} {p s : List String} → t ≡ ">" → Matches (t ∷ p) (x ∷ s)
  any_token : {t x : String} {p s : List String} → t ≡ "*" → Matches p s → Matches (t ∷ p) (x ∷ s)
  same : {t x : String} {p s : List String} → t ≡ x → Matches p s → Matches (t ∷ p) (x ∷ s)

match_tokens_sound : (p s : List String) → match_tokens p s ≡ true → Matches p s
unfolding match_tokens
match_tokens_sound [] [] h = done
match_tokens_sound [] (x ∷ s) h = cc
match_tokens_sound (t ∷ p) [] h = cc
match_tokens_sound (t ∷ p) (x ∷ s) h = elim (Bool-cases (t == ">")) [
  | inl e ↦ rest ((eq_iff t ">").0 e)
  | inr n ↦ elim (Bool-cases (t == "*")) [
    | inl e ↦ any_token ((eq_iff t "*").0 e) (match_tokens_sound p s (ground arith))
    | inr m ↦ elim (Bool-cases (t == x)) [
      | inl e ↦ same ((eq_iff t x).0 e) (match_tokens_sound p s (ground arith))
      | inr k ↦ absurd (ground arith)
    ]
  ]
]

match_tokens_complete : {p s : List String} → Matches p s → match_tokens p s ≡ true
unfolding match_tokens
match_tokens_complete done = refl
match_tokens_complete (rest {t = t} e) = rw e refl
match_tokens_complete (any_token {t = t} {x = x} e m) =
    ground (arith, eq_iff t "*", match_tokens_complete m)
match_tokens_complete (same {t = t} {x = x} e m) =
    ground (arith, eq_iff t x, match_tokens_complete m)

-- The loop answers true exactly when the tokens of the pattern match those of the subject.
pub subject_match_iff :
    (pattern subject : String)
    → (subject_match pattern subject ≡ true) ↔ Matches (split b'.' pattern) (split b'.' subject)
unfolding subject_match
subject_match_iff pattern subject = (match_tokens_sound _ _, match_tokens_complete)
