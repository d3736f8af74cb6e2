-- ===== src/Runtime/Tail.antt =====
-- The loop that reads a process's output (src/mutmuas/runtime.py: SubprocessRuntime.run).
use mutmuas.Prelude.{
  ℕ, zero, suc, ◌+◌, ◌-◌, ◌≤◌, ◌≡◌, refl, List, [], ◌∷◌, ◌++◌, length, drop, keep_end, arith,
  length-append,
}
use mathlib.Core.List.{append_assoc, append-nil}
use mutmuas.Runtime.Output.{tail_bytes, read_on}

module _ {ℓ} {A : Type ℓ} where
  length-drop : (n : ℕ) (xs : List A) → length (drop n xs) ≡ length xs - n
  length-drop zero xs = omega arith
  length-drop (suc n) [] = omega arith
  length-drop (suc n) (x ∷ xs) = omega (arith, length-drop n xs)

  drop_nil : (n : ℕ) → drop {A = A} n [] ≡ []
  drop_nil zero = refl
  drop_nil (suc n) = refl

  drop-drop : (a b : ℕ) (xs : List A) → drop a (drop b xs) ≡ drop (b + a) xs
  drop-drop a zero xs = let e : 0 + a ≡ a = omega arith in rw e refl
  drop-drop a (suc b) [] = rw (drop_nil, drop_nil) refl
  drop-drop a (suc b) (x ∷ xs) =
      let e : suc b + a ≡ suc (b + a) = omega arith in rw e (drop-drop a b xs)

  drop-append : (n : ℕ) (xs ys : List A) → n ≤ length xs → drop n (xs ++ ys) ≡ drop n xs ++ ys
  drop-append zero xs ys h = refl
  drop-append (suc n) [] ys h = absurd (omega arith)
  drop-append (suc n) (x ∷ xs) ys h = drop-append n xs ys (omega arith)

  -- What was cut off before makes no difference.
  keep_end-append :
      (n : ℕ) (xs ys : List A) → keep_end n (keep_end n xs ++ ys) ≡ keep_end n (xs ++ ys)
  keep_end-append n xs ys =
      let k = length xs - n in
      let l = length (xs ++ ys) in
      let whole : drop k (xs ++ ys) ≡ drop k xs ++ ys = drop-append k xs ys (omega arith) in
      let count : k + ((l - k) - n) ≡ l - n = omega (arith, length-append xs ys) in
      rw (← whole, length-drop, drop-drop, count) refl

  length-keep_end : (n : ℕ) (xs : List A) → length (keep_end n xs) ≤ n
  length-keep_end n xs = omega (arith, length-drop (length xs - n) xs)

-- What the chunks before the empty one hold together.
abbrev pub until_end : List (List ℕ) → List ℕ
until_end [] = []
until_end ([] ∷ _) = []
until_end ((b ∷ chunk) ∷ rest) = (b ∷ chunk) ++ until_end rest

read_on-keep_end :
    (n : ℕ) (chunks : List (List ℕ)) (done : List ℕ)
    → read_on n chunks (keep_end n done) ≡ keep_end n (done ++ until_end chunks)
unfolding read_on
read_on-keep_end n [] done = rw append-nil refl
read_on-keep_end n ([] ∷ rest) done = rw append-nil refl
read_on-keep_end n ((b ∷ chunk) ∷ rest) done =
    rw
      (
        keep_end-append n done (b ∷ chunk),
        read_on-keep_end n rest (done ++ (b ∷ chunk)),
        append_assoc,
      )
      refl

-- However the output is cut into chunks, the loop keeps its last 65536 bytes, and never more.
pub read_on_tail :
    (chunks : List (List ℕ))
    → (read_on tail_bytes chunks [] ≡ keep_end tail_bytes (until_end chunks))
      × (length (read_on tail_bytes chunks []) ≤ tail_bytes)
read_on_tail chunks =
    let e = read_on-keep_end tail_bytes chunks [] in
    (e, rw e (length-keep_end tail_bytes (until_end chunks)))
