-- ===== src/Hub/Promise.antt =====
-- What the hub promises of a relation of states, from its leaves on: the ledger's operations, each a
-- transaction, and an attempt to publish.
use mutmuas.Prelude.{ℕ, suc, String, ◌≡◌, refl, sym, arith, false}
use mutmuas.Result.{Result, ok, err}
use mutmuas.Exec.{modify}
use mutmuas.Protocol.Envelope.{Envelope}
use mutmuas.Ledger.Rows.{Ledger, Role}
use mutmuas.Ledger.Outbox
use mutmuas.Ledger.Tasks.{Change, update_task}
use mutmuas.Ledger.History.{Local, queues, updates}
use mutmuas.Hub.State.{State, transaction, on_ledger, commit, with_unit}
use mutmuas.Hub.Sending.{queue_outgoing, try_publish}
use mutmuas.Hub.Runs.{StateRel, Runs}

pub record Promise : Type 1 where
  pub rel : StateRel
  pub local : (s t : State) → Local s.ledger t.ledger → s.stream ≡ t.stream → rel.holds s t
  pub attempts : (env : Envelope) → Runs rel (try_publish env)

with_unit-ok : (r : Result Ledger) (l : Ledger) (u : Unit {0}) → with_unit r ≡ ok (l, u) → r ≡ ok l
with_unit-ok (ok m) l u h = ground arith
with_unit-ok (err e) l u h = ground arith

module _ (P : Promise) where
  pub Runs-modify :
      (f : State → State)
      → ((s : State) → (f s).ledger ≡ s.ledger)
      → ((s : State) → (f s).stream ≡ s.stream)
      → Runs P.rel (modify f)
  Runs-modify f h k = record { at = λ s. P.rel.quiet s (f s) (sym (h s)) (sym (k s)) }

  pub Runs-on_ledger :
      (f : ℕ → Ledger → Ledger)
      → ((t : ℕ) (l : Ledger) → Local l (f t l))
      → Runs P.rel (on_ledger f)
  Runs-on_ledger f h = record {
    at = λ s.
        P.local s (record s { asked = suc s.asked; ledger = f (s.world.time s.asked) s.ledger })
          (h (s.world.time s.asked) s.ledger) refl;
  }

  commit-Runs :
      {A : Type 0}
      → (r : Result (Ledger × A)) (s : State)
      → ((l : Ledger) (a : A) → r ≡ ok (l, a) → Local s.ledger l)
      → P.rel.holds s (commit r s).1
  commit-Runs (ok (l, a)) s h = P.local s (record s { ledger = l }) (h l a refl) refl
  commit-Runs (err e) s h = P.rel.quiet s s refl refl

  pub Runs-transaction :
      {A : Type 0}
      → (f : ℕ → Ledger → Result (Ledger × A))
      → ((t : ℕ) (l l' : Ledger) (a : A) → f t l ≡ ok (l', a) → Local l l')
      → Runs P.rel (transaction f)
  Runs-transaction f h = record {
    at = λ s.
        let t = s.world.time s.asked in
        let s' = record s { asked = suc s.asked } in
        P.rel.chain (P.rel.quiet s s' refl refl)
          (commit-Runs (f t s.ledger) s' (λ l a e. h t s.ledger l a e));
  }

  pub update-Runs :
      (id : String) (r : Role) (c : Change)
      → c.force ≡ false
      → Runs P.rel (transaction (λ now l. update_task now id r c l))
  update-Runs id r c free = Runs-transaction _ (λ t l l' b h. updates t id r c b free h)

  pub queue_outgoing-Runs : (env : Envelope) → Runs P.rel (queue_outgoing env)
  queue_outgoing-Runs env =
      Runs-transaction _ (λ t l l' u h. queues t env (with_unit-ok (Outbox.queue t env l) l' u h))
