-- ===== src/Artifacts/Keys.antt =====
-- The keys that `_safe_key` makes (src/mutmuas/artifacts.py).
use Prim.Native.Char.{Char, code}
use Prim.Native.String.{◌++◌}
use text.Mathlib.TextLemmas.{nil-append, cons-append}
use mutmuas.Prelude.{
  ℕ, String, ◌≡◌, refl, true, false, List, [], ◌∷◌, select, nat_eq, All, All-select, join_from,
  push_first, Bool-cases, inl, inr,
}
use mutmuas.Result.{ok}
use mutmuas.Ids.RoundTrip.{Lacks}
use mutmuas.Bus.Split.{split, split-append, split-Lacks}
use mutmuas.Artifacts.{is_kept, slashed, key_parts, key_of, safe_key}

-- No two neighbours of a split hold the separator, and no part gains another character.
push-Lacks :
    (c : ℕ) (d : Char) (xs : List String)
    → nat_eq (code d) c ≡ false
    → All (Lacks c) xs
    → All (Lacks c) (push_first d xs)
push-Lacks c d [] h hs = ((h, tt), tt)
push-Lacks c d (x ∷ xs) h (hx, hs) = ((h, hx), hs)

split_parts : (c : ℕ) (s : String) → All (Lacks c) (split c s)
unfolding split
split_parts c String.[] = (tt, tt)
split_parts c (String.◌∷◌ d s) = elim (Bool-cases (nat_eq (code d) c)) [
  | inl e ↦ rw e (tt, split_parts c s)
  | inr e ↦ rw e (push-Lacks c d (split c s) e (split_parts c s))
]

split-keeps_Lacks : (c b : ℕ) (s : String) → Lacks b s → All (Lacks b) (split c s)
unfolding split
split-keeps_Lacks c b String.[] h = (tt, tt)
split-keeps_Lacks c b (String.◌∷◌ d s) (h, hs) = elim (Bool-cases (nat_eq (code d) c)) [
  | inl e ↦ rw e (tt, split-keeps_Lacks c b s hs)
  | inr e ↦ rw e (push-Lacks b d (split c s) h (split-keeps_Lacks c b s hs))
]

slash_append : (s : String) → "/" ++ s ≡ String.◌∷◌ "/" s
slash_append s = rw (cons-append, nil-append) refl

split-join_from :
    (x : String) (xs : List String)
    → All (Lacks b'/') (x ∷ xs)
    → split b'/' (join_from "/" x xs) ≡ x ∷ xs
split-join_from x [] (h, _) = split-Lacks b'/' x h
split-join_from x (y ∷ ys) (h, hs) =
    rw (slash_append, split-append "/" x _ h, split-join_from y ys hs) refl

Lacks-append : (b : ℕ) (s t : String) → Lacks b s → Lacks b t → Lacks b (s ++ t)
Lacks-append b String.[] t h k = rw nil-append k
Lacks-append b (String.◌∷◌ d s) t (h, hs) k = rw cons-append (h, Lacks-append b s t hs k)

join_from-Lacks :
    (x : String) (xs : List String) → All (Lacks b'\\') (x ∷ xs) → Lacks b'\\' (join_from "/" x xs)
join_from-Lacks x [] (h, _) = h
join_from-Lacks x (y ∷ ys) (h, hs) =
    rw slash_append (Lacks-append b'\\' x _ h (refl, join_from-Lacks y ys hs))

slashed_clean : (s : String) → Lacks b'\\' (slashed s)
unfolding slashed
slashed_clean String.[] = tt
slashed_clean (String.◌∷◌ c s) = elim (Bool-cases (nat_eq (code c) b'\\')) [
  | inl e ↦ rw e (refl, slashed_clean s)
  | inr e ↦ rw e (e, slashed_clean s)
]

slashed-Lacks : (s : String) → Lacks b'\\' s → slashed s ≡ s
unfolding slashed
slashed-Lacks String.[] h = refl
slashed-Lacks (String.◌∷◌ c s) (h, hs) = rw (h, slashed-Lacks s hs) refl

abbrev pub IsKept : String → Type 0
IsKept p = is_kept p ≡ true

All-IsKept : (xs : List String) → All IsKept (select is_kept xs)
All-IsKept [] = tt
All-IsKept (x ∷ xs) = elim (Bool-cases (is_kept x)) [
  | inl e ↦ rw e (e, All-IsKept xs)
  | inr e ↦ rw e (All-IsKept xs)
]

select_kept : (xs : List String) → All IsKept xs → select is_kept xs ≡ xs
select_kept [] h = refl
select_kept (x ∷ xs) (h, hs) = rw (h, select_kept xs hs) refl

-- What a key is made of: at least one part, none of them empty, "." or "..", and no separator in any.
abbrev pub IsPart : String → Type 0
IsPart p = IsKept p × (Lacks b'/' p × Lacks b'\\' p)

All-× :
    {A : Type 0} (P Q : A → Type 0) (xs : List A) → All P xs → All Q xs → All (λ x. P x × Q x) xs
All-× P Q [] h k = tt
All-× P Q (x ∷ xs) (h, hs) (k, ks) = ((h, k), All-× P Q xs hs ks)

key_parts_lem : (key : String) → All IsPart (key_parts key)
unfolding key_parts
key_parts_lem key =
    let parts = split b'/' (slashed key) in
    All-× _ _ _ (All-IsKept parts) (
      All-× _ _ _ (All-select _ is_kept parts (split_parts b'/' (slashed key))) (
        All-select _ is_kept parts
          (split-keeps_Lacks b'/' b'\\' (slashed key) (slashed_clean key))))

All-imp :
    {A : Type 0} (P Q : A → Type 0) → ((x : A) → P x → Q x) → (xs : List A) → All P xs → All Q xs
All-imp P Q f [] h = tt
All-imp P Q f (x ∷ xs) (h, hs) = (f x h, All-imp P Q f xs hs)

split-joined :
    (p : String) (rest : List String)
    → All IsPart (p ∷ rest)
    → split b'/' (join_from "/" p rest) ≡ p ∷ rest
split-joined p rest h = split-join_from p rest (All-imp IsPart _ (λ x k. k.1.0) (p ∷ rest) h)

key_parts-joined :
    (p : String) (rest : List String)
    → All IsPart (p ∷ rest)
    → key_parts (join_from "/" p rest) ≡ p ∷ rest
unfolding key_parts
key_parts-joined p rest h =
    let clean = join_from-Lacks p rest (All-imp IsPart _ (λ x k. k.1.1) (p ∷ rest) h) in
    let kept = select_kept (p ∷ rest) (All-imp IsPart _ (λ x k. k.0) (p ∷ rest) h) in
    rw (slashed-Lacks _ clean, split-joined p rest h) kept

key_of_safe :
    (parts : List String) (k : String)
    → All IsPart parts
    → key_of parts ≡ ok k
    → All IsPart (split b'/' k) × (key_of (key_parts k) ≡ ok k)
key_of_safe [] k h e = cc
key_of_safe (p ∷ rest) k h e =
    let is : join_from "/" p rest ≡ k = cc in
    rw (← is, split-joined p rest h, key_parts-joined p rest h) (h, refl)

pub safe_key_safe :
    (key k : String) → safe_key key ≡ ok k → All IsPart (split b'/' k) × (safe_key k ≡ ok k)
unfolding safe_key
safe_key_safe key k h = key_of_safe (key_parts key) k (key_parts_lem key) h
