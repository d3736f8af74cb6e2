-- ===== src/Ids/RoundTrip.antt =====
-- Parsing and printing of addresses (src/mutmuas/ids.py: Address.parse, Address.__str__).
use Prim.Native.Char.{Char, code}
use Prim.Native.String.{◌++◌}
use text.Mathlib.TextLemmas.{nil-append, cons-append}
use text.Mathlib.TextEquality.{Char-path}
use mutmuas.Prelude.{
  ℕ, ◌+◌, String, ◌≡◌, refl, sym, inl, inr, true, false, some, arith, nat_eq, Bool-cases,
  Option-cases,
}
use mutmuas.Result.{ok}
use mutmuas.Ids.{Address, token_char, matches_from, partition, parse, to_text}

-- No character of the text has the code.
abbrev pub Lacks : ℕ → String → Type 0
Lacks c String.[] = Unit
Lacks c (String.◌∷◌ d s) = (nat_eq (code d) c ≡ false) × Lacks c s

pub partition-append :
    (e : Char) (s t : String)
    → Lacks (code e) s
    → partition (code e) (s ++ (String.◌∷◌ e t)) ≡ some (s, t)
unfolding partition
partition-append e String.[] t h = rw nil-append (ground arith)
partition-append e (String.◌∷◌ d s) t h =
    rw (cons-append, partition) (rw (h.0, partition-append e s t h.1))

colon_append : (s : String) → ":" ++ s ≡ String.◌∷◌ ":" s
colon_append s = rw (cons-append, nil-append)

-- A text that the regular expression accepts holds no colon and no dot: both are out of its class.
pub matches_from-Lacks :
    (c n : ℕ) (s : String)
    → token_char c ≡ false
    → nat_eq 10 c ≡ false
    → matches_from n s ≡ true
    → Lacks c s
unfolding matches_from
matches_from-Lacks c n String.[] k l h = tt
matches_from-Lacks c n (String.◌∷◌ d String.[]) k l h = (ground arith, tt)
matches_from-Lacks c n (String.◌∷◌ d (String.◌∷◌ e s)) k l h =
    (ground arith, matches_from-Lacks c (n + 1) (String.◌∷◌ e s) k l (ground arith))

token-Lacks-colon : (s : String) → matches_from 0 s ≡ true → Lacks b':' s
unfolding token_char
token-Lacks-colon s h = matches_from-Lacks b':' 0 s refl refl h

pub token-Lacks-dot : (s : String) → matches_from 0 s ≡ true → Lacks b'.' s
unfolding token_char
token-Lacks-dot s h = matches_from-Lacks b'.' 0 s refl refl h

partition-some :
    (e : Char) (s a b : String) → partition (code e) s ≡ some (a, b) → s ≡ a ++ String.◌∷◌ e b
unfolding partition
partition-some e String.[] a b h = cc
partition-some e (String.◌∷◌ d s) a b h = elim (Bool-cases (nat_eq (code d) (code e))) [
  | inl same ↦
      let front : (a ≡ String.[]) × (b ≡ s) = ground arith in
      rw (front.0, front.1, nil-append, Char-path d e (ground arith)) refl
  | inr other ↦ elim (Option-cases (partition (code e) s)) [
    | inl missing ↦ absurd (ground arith)
    | inr ((x, y), found) ↦
        let front : (a ≡ String.◌∷◌ d x) × (b ≡ y) = ground arith in
        rw (front.0, front.1, cons-append, ← partition-some e s x y found) refl
  ]
]

-- Printing an address whose parts are tokens and parsing the text gives the address back.
pub parse-to_text :
    (a : Address)
    → matches_from 0 a.node ≡ true
    → matches_from 0 a.agent ≡ true
    → parse (to_text a) ≡ ok a
unfolding parse to_text
parse-to_text a n m =
    rw (colon_append, partition-append ":" a.node a.agent (token-Lacks-colon a.node n)) (rw (n, m))

-- What the parser accepts is printed as it was written, and both parts are tokens.
pub to_text-parse :
    (s : String) (a : Address)
    → parse s ≡ ok a
    → (to_text a ≡ s) × (matches_from 0 a.node ≡ true) × (matches_from 0 a.agent ≡ true)
unfolding parse to_text
to_text-parse s a h = elim (Option-cases (partition b':' s)) [
  | inl missing ↦ absurd (ground arith)
  | inr ((x, y), found) ↦
      let tokens : (matches_from 0 x ≡ true) × (matches_from 0 y ≡ true) = ground arith in
      let parts : a ≡ record { node = x; agent = y } = ground arith in
      rw parts (rw colon_append (sym (partition-some ":" s x y found)), tokens.0, tokens.1)
]
