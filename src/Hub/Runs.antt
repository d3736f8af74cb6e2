-- ===== src/Hub/Runs.antt =====
-- What an action of the node does to its state, as a relation of the states before and after that
-- chains: one rule for each way to build an action.
use mutmuas.Prelude.{suc, ◌≡◌, refl, Bool, true, false, if◌then◌else◌}
use mutmuas.Result.{Error, Result, ok, err}
use mutmuas.Exec.{pure, raise, lift, gets, ◌>>=◌, continue, catch, handled_by}
use mutmuas.Hub.State.{State, M, ask}

-- A relation that chains, and that holds where ledger and stream stay.
pub record StateRel : Type 1 where
  pub holds : State → State → Type 0
  pub chain : {r s t : State} → holds r s → holds s t → holds r t
  pub quiet : (s t : State) → s.ledger ≡ t.ledger → s.stream ≡ t.stream → holds s t

pub record Runs {A : Type 0} (R : StateRel) (m : M A) : Type 0 where
  pub at : (s : State) → R.holds s (m s).1

module _ {A : Type 0} {R : StateRel} where
  pub Runs-pure : (a : A) → Runs R (pure a)
  Runs-pure a = record { at = λ s. R.quiet s s refl refl }

  pub Runs-raise : (e : Error) → Runs R (raise {A = A} e)
  Runs-raise e = record { at = λ s. R.quiet s s refl refl }

  pub Runs-lift : (r : Result A) → Runs R (lift r)
  Runs-lift r = record { at = λ s. R.quiet s s refl refl }

  pub Runs-gets : (f : State → A) → Runs R (gets f)
  Runs-gets f = record { at = λ s. R.quiet s s refl refl }

  pub Runs-if : (b : Bool) (m n : M A) → Runs R m → Runs R n → Runs R (if b then m else n)
  Runs-if true m n rm rn = rm
  Runs-if false m n rm rn = rn

  handled_by-Runs :
      (r : Result A) (h : Error → M A) (s : State)
      → ((e : Error) → Runs R (h e))
      → R.holds s (handled_by r h s).1
  handled_by-Runs (ok a) h s rh = R.quiet s s refl refl
  handled_by-Runs (err e) h s rh = (rh e).at s

  pub Runs-catch :
      (m : M A) (h : Error → M A) → Runs R m → ((e : Error) → Runs R (h e)) → Runs R (catch m h)
  Runs-catch m h rm rh = record {
    at = λ s. R.chain (rm.at s) (handled_by-Runs (m s).0 h (m s).1 rh);
  }

pub Runs-ask : {R : StateRel} → Runs R ask
Runs-ask {R} = record { at = λ s. R.quiet s (record s { asked = suc s.asked }) refl refl }

module _ {A B : Type 0} {R : StateRel} where
  continue-Runs :
      (r : Result A) (f : A → M B) (s : State)
      → ((a : A) → Runs R (f a))
      → R.holds s (continue r f s).1
  continue-Runs (ok a) f s rf = (rf a).at s
  continue-Runs (err e) f s rf = R.quiet s s refl refl

  pub Runs-bind : (m : M A) (f : A → M B) → Runs R m → ((a : A) → Runs R (f a)) → Runs R (m >>= f)
  Runs-bind m f rm rf = record { at = λ s. R.chain (rm.at s) (continue-Runs (m s).0 f (m s).1 rf) }

pub ruleset run_rules =
    (Runs-pure, Runs-raise, Runs-lift, Runs-gets, Runs-if, Runs-catch, Runs-ask, Runs-bind)
