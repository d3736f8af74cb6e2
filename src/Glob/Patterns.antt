-- ===== src/Glob/Patterns.antt =====
-- What a pattern of `accept_from` admits (src/mutmuas/config.py: AgentConfig.accepts), without the search for
-- where a star ends.
use mutmuas.Prelude.{
  ℕ, zero, suc, ◌<◌, ◌≡◌, ◌≢◌, refl, ◌∙◌, ◌⊎◌, ◌↔◌, inl, inr, String, Bool, true, false, some, none,
  List, [], ◌∷◌, any, arith, nat_eq, Bool-cases, Option-cases, ◌&&◌,
}
use mutmuas.Config.{AgentConfig, accepts}
use mutmuas.Glob.{
  Piece, any_char, lit, class, count, codes, set_of, body_of, ranges_of, pieces, matches_one,
  after_star, one_then, match_pieces, fnmatchcase,
}
use mutmuas.Glob.Fuel.{set_of-shorter}

-- A pattern and a text that it admits. A star stands for any characters, a question mark for one, a set in
-- brackets for one of its characters, and anything else, also a bracket that is not closed, for itself.
pub data Admits : List ℕ → List ℕ → Type 0 where
  done : Admits [] []
  skip : {p s : List ℕ} → Admits p s → Admits (b'*' ∷ p) s
  take : {c : ℕ} {p s : List ℕ} → Admits (b'*' ∷ p) s → Admits (b'*' ∷ p) (c ∷ s)
  any_one : {c : ℕ} {p s : List ℕ} → Admits p s → Admits (b'?' ∷ p) (c ∷ s)
  one_of :
      {c : ℕ} {p r s : List ℕ} {negated : Bool} {ranges : List (ℕ × ℕ)}
      → set_of p ≡ some (class negated ranges, r)
      → matches_one (class negated ranges) c ≡ true
      → Admits r s
      → Admits (b'[' ∷ p) (c ∷ s)
  unclosed : {p s : List ℕ} → set_of p ≡ none → Admits p s → Admits (b'[' ∷ p) (b'[' ∷ s)
  same :
      {c : ℕ} {p s : List ℕ} → c ≢ b'*' → c ≢ b'?' → c ≢ b'[' → Admits p s → Admits (c ∷ p) (c ∷ s)

set_of-class :
    (s r : List ℕ) (p : Piece)
    → set_of s ≡ some (p, r)
    → (negated : Bool) × (ranges : List (ℕ × ℕ)) × (p ≡ class negated ranges)
set_of-class [] r p h = cc
set_of-class (c ∷ s) r p h = elim (Bool-cases (nat_eq c b'!')) [
  | inl negated ↦ elim (Option-cases (body_of s)) [
    | inl missing ↦ absurd (ground arith)
    | inr ((x, y), found) ↦ (true, ranges_of x, ground arith)
  ]
  | inr plain ↦ elim (Option-cases (body_of (c ∷ s))) [
    | inl missing ↦ absurd (ground arith)
    | inr ((x, y), found) ↦ (false, ranges_of x, ground arith)
  ]
]

star_sound :
    (fits : List ℕ → Bool) (p s : List ℕ)
    → ((t : List ℕ) → fits t ≡ true → Admits p t)
    → after_star fits s ≡ true
    → Admits (b'*' ∷ p) s
star_sound fits p [] h e = skip (h [] e)
star_sound fits p (c ∷ s) h e = elim (Bool-cases (fits (c ∷ s))) [
  | inl now ↦ skip (h (c ∷ s) now)
  | inr later ↦ take (star_sound fits p s h (ground arith))
]

one_sound :
    (q : Piece) (fits : List ℕ → Bool) (s : List ℕ)
    → one_then q fits s ≡ true
    → (c : ℕ) × (t : List ℕ) × (s ≡ c ∷ t) × (matches_one q c ≡ true) × (fits t ≡ true)
one_sound q fits [] e = cc
one_sound q fits (c ∷ t) e = (c, t, refl, ground arith, ground arith)

pieces_sound :
    (f : ℕ) (p s : List ℕ) → count p < f → match_pieces (pieces f p) s ≡ true → Admits p s
unfolding pieces match_pieces
pieces_sound zero p s h e = absurd (omega arith)
pieces_sound (suc f) [] [] h e = done
pieces_sound (suc f) [] (c ∷ s) h e = cc
pieces_sound (suc f) (c ∷ p) s h e = elim (Bool-cases (nat_eq c b'*')) [
  | inl is_star ↦
      let here : c ≡ b'*' = ground arith in
      rw here (
        star_sound (match_pieces (pieces f p)) p s (λ t. pieces_sound f p t (omega arith))
          (rw is_star at e))
  | inr m ↦ elim (Bool-cases (nat_eq c b'?')) [
    | inl is_any ↦
        let here : c ≡ b'?' = ground arith in
        let (d, t, split, one, rest) =
          one_sound any_char (match_pieces (pieces f p)) s (rw (m, is_any) at e) in
        rw (here, split) (any_one (pieces_sound f p t (omega arith) rest))
    | inr n ↦ elim (Bool-cases (nat_eq c b'[')) [
      | inl is_set ↦
          let here : c ≡ b'[' = ground arith in
          elim (Option-cases (set_of p)) [
            | inl open_ ↦
                let (d, t, split, one, rest) =
                  one_sound (lit c) (match_pieces (pieces f p)) s (rw (m, n, is_set, open_) at e) in
                let dc : d ≡ b'[' = ground arith in
                rw (here, split, dc) (unclosed open_ (pieces_sound f p t (omega arith) rest))
            | inr ((set, r), closed) ↦
                let (negated, ranges, known) = set_of-class p r set closed in
                let found : set_of p ≡ some (class negated ranges, r) = closed ∙ rw known refl in
                let (d, t, split, one, rest) =
                  one_sound (class negated ranges) (match_pieces (pieces f r)) s
                    (rw (m, n, is_set, found) at e) in
                let shorter = set_of-shorter p r set closed in
                rw (here, split)
                  (one_of found one (pieces_sound f r t (omega (arith, shorter)) rest))
          ]
      | inr k ↦
          let (d, t, split, one, rest) =
            one_sound (lit c) (match_pieces (pieces f p)) s (rw (m, n, k) at e) in
          let dc : d ≡ c = ground arith in
          rw (split, dc)
            (same (ground arith) (ground arith) (ground arith)
              (pieces_sound f p t (omega arith) rest))
    ]
  ]
]

-- Completeness.
star_complete : (fits : List ℕ → Bool) (s : List ℕ) → fits s ≡ true → after_star fits s ≡ true
star_complete fits [] h = h
star_complete fits (c ∷ s) h = rw h refl

both : {a b : Bool} → a ≡ true → b ≡ true → (a && b) ≡ true
both h k = rw (h, k) refl

pieces_complete :
    (f : ℕ) {p s : List ℕ} → count p < f → Admits p s → match_pieces (pieces f p) s ≡ true
unfolding pieces match_pieces
pieces_complete zero h a = absurd (omega arith)
pieces_complete (suc f) h done = refl
pieces_complete (suc f) h (skip {p} {s} a) =
    star_complete (match_pieces (pieces f p)) s (pieces_complete f (omega arith) a)
pieces_complete (suc f) h (take {c} {p} {s} a) =
    let rest = pieces_complete (suc f) {p = b'*' ∷ p} {s = s} h a in ground (arith, rest)
pieces_complete (suc f) h (any_one a) = pieces_complete f (omega arith) a
pieces_complete (suc f) h (one_of {c} {p} {r} {negated} {ranges} closed one a) =
    let shorter = set_of-shorter p r (class negated ranges) closed in
    rw closed (both one (pieces_complete f (omega (arith, shorter)) a))
pieces_complete (suc f) h (unclosed {p} open_ a) = rw open_ (pieces_complete f (omega arith) a)
pieces_complete (suc f) h (same {c} x y z a) =
    let m : nat_eq c b'*' ≡ false = ground arith in
    let n : nat_eq c b'?' ≡ false = ground arith in
    let k : nat_eq c b'[' ≡ false = ground arith in
    let own : nat_eq c c ≡ true = ground arith in
    rw (m, n, k, own) (pieces_complete f (omega arith) a)

pub fnmatchcase_iff :
    (name pattern : String)
    → (fnmatchcase name pattern ≡ true) ↔ Admits (codes pattern) (codes name)
unfolding fnmatchcase
fnmatchcase_iff name pattern =
    let enough : count (codes pattern) < suc (count (codes pattern)) = omega arith in
    (pieces_sound _ _ _ enough, pieces_complete _ enough)

-- One of the patterns admits the sender.
abbrev pub IsAdmittedBy : List String → String → Type 0
IsAdmittedBy [] sender = ⊥
IsAdmittedBy (p ∷ ps) sender = Admits (codes p) (codes sender) ⊎ IsAdmittedBy ps sender

any_iff :
    (ps : List String) (sender : String)
    → (any (fnmatchcase sender) ps ≡ true) ↔ IsAdmittedBy ps sender
any_iff [] sender = ((λ h. cc), (λ h. elim h [ ]))
any_iff (p ∷ ps) sender =
    let (to, from) = any_iff ps sender in
    let (sound, complete) = fnmatchcase_iff sender p in
    (
      λ h. elim (Bool-cases (fnmatchcase sender p)) [
        | inl e ↦ inl (sound e)
        | inr e ↦ inr (to (ground arith))
      ],
      λ h. elim h [
        | inl a ↦ let e = complete a in ground arith
        | inr a ↦ let e = from a in ground arith
      ],
    )

-- An agent accepts a sender exactly when one of its patterns admits the sender's address.
pub accepts_iff :
    (agent : AgentConfig) (sender : String)
    → (accepts agent sender ≡ true) ↔ IsAdmittedBy agent.accept_from sender
unfolding accepts
accepts_iff agent sender = any_iff agent.accept_from sender
