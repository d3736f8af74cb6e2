-- ===== src/Node/Handled.antt =====
-- What a round of the dispatcher leaves behind (src/mutmuas/node.py: _dispatcher).
use mathlib.Core.Path.{subst}
use mutmuas.Prelude.{
  ℕ, suc, String, ◌≡◌, refl, sym, Bool, true, ◌&&◌, Option, none, some, List, [], ◌∷◌, map, any,
  select, update_where, arith, eq_refl, All, Bool-cases, inl, inr,
}
use mutmuas.Result.{Result, ok, err}
use mutmuas.Protocol.Envelope.{Envelope}
use mutmuas.Config.{AgentConfig}
use mutmuas.Ledger.Rows.{
  inbound, dropped, Message, MessageState, Ledger, has_message_key, is_settled,
}
use mutmuas.Ledger.Inbox.{unhandled, is_unhandled, mark_handled}
use mutmuas.Ledger.History.{Reach}
use mutmuas.Ledger.Lasting.{IsLasting, Reach-lasts}
use mutmuas.Exec.{continue, handled_by}
use mutmuas.Hub.State.{State}
use mutmuas.Hub.Refines.{by_steps}
use mutmuas.Node.Requests.{Disposition}
use mutmuas.Node.Dispatch.{
  handle, state_of, state_of_settled, mark, drop_failed, dispatch_one, dispatch_all, dispatch,
}
use mutmuas.Node.RunSteps.{handle-Runs, dispatch_one-Runs, dispatch_all-Runs}

-- Whether an incoming message with the id is stored.
abbrev pub is_present : String → Ledger → Bool
is_present id l = any (has_message_key id inbound) l.messages

abbrev is_settled_row : String → Message → Bool
is_settled_row id m = has_message_key id inbound m && is_settled m.state

-- Whether the incoming message with the id is handled, rejected or dropped.
abbrev pub is_finished : String → Ledger → Bool
is_finished id l = any (is_settled_row id) l.messages

present-IsLasting : (id : String) → IsLasting (has_message_key id inbound)
present-IsLasting id = record {
  tried = λ m n e now. refl;
  read = λ m b. refl;
  settles = λ m i s e now settled inward there. there;
  leaves = λ m i now outward there. there;
}

finished-IsLasting : (id : String) → IsLasting (is_settled_row id)
finished-IsLasting id = record {
  tried = λ m n e now. refl;
  read = λ m b. refl;
  settles = λ m i s e now settled inward there. ground arith;
  leaves = λ m i now outward there. ground arith;
}

marked :
    (id : String) (now : ℕ) (s : MessageState) (e : Option String) (ms : List Message)
    → is_settled s ≡ true
    → any (has_message_key id inbound) ms ≡ true
    → any (is_settled_row id) (
        update_where
          (has_message_key id inbound)
          (λ (m : Message). record m { state = s; last_error = e; updated_at = now })
          ms)
      ≡ true
marked id now s e [] h k = k
marked id now s e (m ∷ ms) h k = ground (arith, marked id now s e ms h)

-- Marking a stored message finishes it, and does not raise.
mark_finishes :
    (env : Envelope) (st : MessageState) (e : Option String) (s : State)
    → is_settled st ≡ true
    → is_present env.message_id s.ledger ≡ true
    → ((mark env st e s).0 ≡ ok tt) × (is_finished env.message_id (mark env st e s).1.ledger ≡ true)
unfolding mark_handled
mark_finishes env st e s h k =
    (refl, marked env.message_id (s.world.time s.asked) st e s.ledger.messages h k)

abbrev Finishes : Envelope → Result (Unit {0}) × State → Type 0
Finishes env (r, t) = (r ≡ ok tt) × (is_finished env.message_id t.ledger ≡ true)

-- What is left of a message when its handler has returned or raised.
after_handler : Envelope → Result Disposition × State → Result (Unit {0}) × State
after_handler env (r, t) =
    let (q, u) = continue r (λ d. mark env (state_of d) none) t in handled_by q (drop_failed env) u

after_handler-Finishes :
    (env : Envelope) (r : Result Disposition) (t : State)
    → is_present env.message_id t.ledger ≡ true
    → Finishes env (after_handler env (r, t))
unfolding after_handler
after_handler-Finishes env (ok d) t k = mark_finishes env (state_of d) none t (state_of_settled d) k
after_handler-Finishes env (err x) t k =
    mark_finishes env dropped (some (t.world.error_text t.asked)) (record t { asked = suc t.asked })
      refl k

-- One message: whatever its handler does or raises, it is finished afterwards.
dispatch_one-Finishes :
    (agent : AgentConfig) (env : Envelope) (s : State)
    → is_present env.message_id s.ledger ≡ true
    → Finishes env (dispatch_one agent env s)
unfolding after_handler
dispatch_one-Finishes agent env s k =
    after_handler-Finishes env (handle agent env s).0 (handle agent env s).1
      (Reach-lasts _ (present-IsLasting env.message_id) ((handle-Runs by_steps agent env).at s) k)

abbrev ArePresent : List Envelope → Ledger → Type 0
ArePresent envs l = All (λ (e : Envelope). is_present e.message_id l ≡ true) envs

abbrev pub AreFinished : List Envelope → Ledger → Type 0
AreFinished envs l = All (λ (e : Envelope). is_finished e.message_id l ≡ true) envs

present_after :
    (envs : List Envelope) (l l' : Ledger) → Reach l l' → ArePresent envs l → ArePresent envs l'
present_after [] l l' r h = tt
present_after (e ∷ envs) l l' r (h, hs) =
    (Reach-lasts _ (present-IsLasting e.message_id) r h, present_after envs l l' r hs)

dispatch_all_finishes :
    (agent : AgentConfig) (envs : List Envelope) (s : State)
    → ArePresent envs s.ledger
    → ((dispatch_all agent envs s).0 ≡ ok tt)
      × AreFinished envs (dispatch_all agent envs s).1.ledger
dispatch_all_finishes agent [] s h = (refl, tt)
dispatch_all_finishes agent (env ∷ envs) s (h, hs) =
    let t = (dispatch_one agent env s).1 in
    let (fine, done) = dispatch_one-Finishes agent env s h in
    let here_ =
      present_after envs s.ledger t.ledger ((dispatch_one-Runs by_steps agent env).at s) hs in
    let (rest, others) = dispatch_all_finishes agent envs t here_ in
    let last = (dispatch_all-Runs by_steps agent envs).at t in
    let same : dispatch_all agent (env ∷ envs) s ≡ dispatch_all agent envs t = rw fine refl in
    subst (λ p. (p.0 ≡ ok tt) × AreFinished (env ∷ envs) p.1.ledger) (sym same)
      (rest, (Reach-lasts _ (finished-IsLasting env.message_id) last done, others))

-- Every row is filed under the id of its message.
abbrev pub AreFiled : List Message → Type 0
AreFiled = All (λ (m : Message). m.message_id ≡ m.envelope.message_id)

unhandled_present :
    (addr : String) (ms all : List Message)
    → AreFiled ms
    → ((id : String)
        → any (has_message_key id inbound) ms ≡ true
        → any (has_message_key id inbound) all ≡ true)
    → All
        (λ (e : Envelope). any (has_message_key e.message_id inbound) all ≡ true)
        (map (λ (m : Message). m.envelope) (select (is_unhandled addr) ms))
unhandled_present addr [] all f sub = tt
unhandled_present addr (m ∷ ms) all (f, fs) sub =
    let rest = unhandled_present addr ms all fs (λ id h. sub id (ground (arith, h))) in
    elim (Bool-cases (is_unhandled addr m)) [
      | inl e ↦
          rw e (sub m.envelope.message_id (ground (arith, f, eq_refl m.envelope.message_id)), rest)
      | inr e ↦ rw e rest
    ]

-- A round of the dispatcher does not raise, and leaves every message that waited for the agent when it
-- began handled, rejected or dropped, whatever their handlers raise; provided that rows are filed under
-- the ids of their messages.
pub dispatch_finishes :
    (agent : AgentConfig) (addr : String) (s : State)
    → AreFiled s.ledger.messages
    → ((dispatch agent addr s).0 ≡ ok tt)
      × AreFinished (unhandled addr s.ledger) (dispatch agent addr s).1.ledger
unfolding dispatch unhandled
dispatch_finishes agent addr s f =
    dispatch_all_finishes agent (unhandled addr s.ledger) s
      (unhandled_present addr s.ledger.messages s.ledger.messages f (λ id h. h))
