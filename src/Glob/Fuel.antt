-- ===== src/Glob/Fuel.antt =====
-- What reading a set leaves of a pattern of `accept_from` (src/mutmuas/config.py).
use mutmuas.Prelude.{
  ℕ, ◌<◌, ◌≡◌, some, List, [], ◌∷◌, arith, nat_eq, Bool-cases, Option-cases, inl, inr,
}
use mutmuas.Glob.{Piece, count, until_bracket, set_body, body_of, set_of}

until_bracket-shorter : (s a b : List ℕ) → until_bracket s ≡ some (a, b) → count b < count s
until_bracket-shorter [] a b h = cc
until_bracket-shorter (c ∷ s) a b h = elim (Bool-cases (nat_eq c b']')) [
  | inl here ↦ let same : b ≡ s = ground arith in rw same (omega arith)
  | inr other ↦ elim (Option-cases (until_bracket s)) [
    | inl missing ↦ absurd (ground arith)
    | inr ((x, y), found) ↦
        let same : y ≡ b = ground arith in
        let shorter = until_bracket-shorter s x y found in rw (← same) (omega (arith, shorter))
  ]
]

set_body-shorter : (s a b : List ℕ) → set_body s ≡ some (a, b) → count b < count s
set_body-shorter [] a b h = cc
set_body-shorter (c ∷ s) a b h = elim (Option-cases (until_bracket s)) [
  | inl missing ↦ absurd (ground arith)
  | inr ((x, y), found) ↦
      let same : y ≡ b = ground arith in
      rw (← same) (omega (arith, until_bracket-shorter s x y found))
]

body_of-shorter : (s a b : List ℕ) → body_of s ≡ some (a, b) → count b < count s
body_of-shorter [] a b h = cc
body_of-shorter (c ∷ s) a b h = elim (Bool-cases (nat_eq c b']')) [
  | inl first ↦ set_body-shorter (c ∷ s) a b (ground arith)
  | inr other ↦ until_bracket-shorter (c ∷ s) a b (ground arith)
]

pub set_of-shorter : (s r : List ℕ) (p : Piece) → set_of s ≡ some (p, r) → count r < count s
set_of-shorter [] r p h = cc
set_of-shorter (c ∷ s) r p h = elim (Bool-cases (nat_eq c b'!')) [
  | inl negated ↦ elim (Option-cases (body_of s)) [
    | inl missing ↦ absurd (ground arith)
    | inr ((x, y), found) ↦
        let same : y ≡ r = ground arith in rw (← same) (omega (arith, body_of-shorter s x y found))
  ]
  | inr plain ↦ elim (Option-cases (body_of (c ∷ s))) [
    | inl missing ↦ absurd (ground arith)
    | inr ((x, y), found) ↦
        let same : y ≡ r = ground arith in rw (← same) (body_of-shorter (c ∷ s) x y found)
  ]
]
