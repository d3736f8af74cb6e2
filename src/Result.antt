-- ===== src/Result.antt =====
-- The exceptions that the source raises, as values. A handler matches on the error.
use mutmuas.Prelude.{◌≡◌, refl, Bool, true, false, ◌⊎◌, inl, inr}

-- `ProtocolError.code` (src/mutmuas/protocol.py).
pub data Code : Type 0 where
  invalid_message unsupported_protocol unknown_type invalid_address : Code

pub data Error : Type 0 where
  protocol_error : Code → Error
  artifact_error artifact_unavailable git_error os_error : Error
  bad_address config_error permission_denied key_error value_error bus_unavailable : Error
  -- Python's own: an attribute that a value lacks, a value that cannot be hashed
  attribute_error type_error : Error
  -- A value of a type that the annotations exclude; the model follows it no further.
  untyped : Error

pub data Result {ℓ} (A : Type ℓ) : Type ℓ where
  ok : A → Result A
  err : Error → Result A

-- if b: raise e
abbrev pub raise_if : Bool → Error → Result (Unit {0})
raise_if b e = elim b [ true ↦ err e | false ↦ ok tt ]

-- The rest of a computation runs only if the first part returned.
module _ {a b} {A : Type a} {B : Type b} where
  infixl 5 ◌>>=◌ ◌>>◌
  abbrev pub ◌>>=◌ : Result A → (A → Result B) → Result B
  first >>= next = elim first [ err e ↦ err e | ok x ↦ next x ]

  abbrev pub ◌>>◌ : Result A → Result B → Result B
  first >> next = first >>= (λ _. next)

  pub >>=-eq-ok :
      (first : Result A) (next : A → Result B) {y : B}
      → (first >>= next) ≡ ok y
      → (x : A) × (first ≡ ok x) × (next x ≡ ok y)
  >>=-eq-ok (err e) next h = cc
  >>=-eq-ok (ok x) next h = (x, refl, h)

-- A property of every value that a computation can return.
pub record Ensures {ℓ κ} {A : Type ℓ} (P : A → Type κ) (m : Result A) : Type (ℓ ⊔ κ) where
  pub at : (a : A) → m ≡ ok a → P a

pub Ensures-bind {ℓ κ μ} :
    {A : Type ℓ} {B : Type κ} {P : B → Type μ} (m : Result A) (f : A → Result B)
    → ((a : A) → Ensures P (f a))
    → Ensures P (m >>= f)
Ensures-bind (ok a) f h = h a
Ensures-bind (err e) f h = record { at = λ b p. cc }

pub Result-cases :
    {A : Type 0} → (r : Result A) → ((a : A) × (r ≡ ok a)) ⊎ ((e : Error) × (r ≡ err e))
Result-cases (ok a) = inl (a, refl)
Result-cases (err e) = inr (e, refl)
