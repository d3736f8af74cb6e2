-- ===== src/Exec.antt =====
-- Methods that change the node's state and may raise. What was written before a raise stays
-- written, so the state comes back beside the error too.
use mutmuas.Prelude.{◌≡◌, refl}
use mutmuas.Result.{Error, Result, ok, err}

abbrev pub Exec : Type 0 → Type 0 → Type 0
Exec S A = S → Result A × S

module _ {S A : Type 0} where
  abbrev pub pure : A → Exec S A
  pure a s = (ok a, s)

  abbrev pub raise : Error → Exec S A
  raise e s = (err e, s)

  abbrev pub lift : Result A → Exec S A
  lift r s = (r, s)

  abbrev pub gets : (S → A) → Exec S A
  gets f s = (ok (f s), s)

abbrev pub modify : {S : Type 0} → (S → S) → Exec S (Unit {0})
modify f s = (ok tt, f s)

module _ {S A B : Type 0} where
  abbrev pub continue : Result A → (A → Exec S B) → Exec S B
  continue (ok a) f s = f a s
  continue (err e) f s = (err e, s)

  infixl 5 ◌>>=◌ ◌>>◌
  abbrev pub ◌>>=◌ : Exec S A → (A → Exec S B) → Exec S B
  ◌>>=◌ m f s = let (r, s') = m s in continue r f s'

  abbrev pub ◌>>◌ : Exec S A → Exec S B → Exec S B
  m >> n = m >>= λ _. n

-- try: m except Exception: the handler, on the state that `m` left
abbrev pub handled_by : {S A : Type 0} → Result A → (Error → Exec S A) → Exec S A
handled_by (ok a) h s = (ok a, s)
handled_by (err e) h s = h e s

abbrev pub catch : {S A : Type 0} → Exec S A → (Error → Exec S A) → Exec S A
catch m h s = let (r, s') = m s in handled_by r h s'

module _ {S A B : Type 0} where
  continue-eq-ok :
      (r : Result A) (u : S) (f : A → Exec S B) {b : B} {t : S}
      → continue r f u ≡ (ok b, t)
      → (a : A) × (r ≡ ok a) × (f a u ≡ (ok b, t))
  continue-eq-ok (ok a) u f h = (a, refl, h)
  continue-eq-ok (err e) u f h = cc

  -- A chain that returns: its first part returned, and the rest of it did on the state left.
  pub >>=-eq-ok :
      (m : Exec S A) (f : A → Exec S B) (s : S) {b : B} {t : S}
      → (m >>= f) s ≡ (ok b, t)
      → (a : A) × ((m s).0 ≡ ok a) × (f a (m s).1 ≡ (ok b, t))
  >>=-eq-ok m f s h = continue-eq-ok (m s).0 (m s).1 f h
