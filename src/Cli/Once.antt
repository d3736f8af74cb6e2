-- ===== src/Cli/Once.antt =====
-- What the notifier tells of (src/mutmuas/cli.py: cmd_watch), over all its rounds.
use mutmuas.Prelude.{
  ap, ℕ, suc, zero, ◌≤◌, ◌≡◌, refl, ◌⊎◌, inl, inr, String, Bool, true, false, arith, Option, none,
  some, List, [], ◌∷◌, map, take, select, find, All, ltb, if◌then◌else◌, Bool-cases,
}
use mutmuas.Result.{Error, Result, ok, err}
use mutmuas.Exec.{◌>>=◌, continue, gets, pure}
use mutmuas.Ids.{Address, to_text}
use mutmuas.Config.{AgentConfig}
use mutmuas.Protocol.Envelope.{Envelope}
use mutmuas.Ledger.Rows.{inbound, Message, Ledger, has_message_key, is_direction}
use mutmuas.Ledger.Inbox.{after_row, is_unseen, unseen}
use mutmuas.Hub.State.{State}
use mutmuas.Hub.Requests.{local_agent}
use mutmuas.Tools.Inbox.{Item, item_of, actionable, listed, inbox}
use mutmuas.Cli.Watch.{Round, failed, nothing, notified, max_seq, round_of, go_on, poll, watch}

-- The row of a received message is the one that its key finds.
abbrev pub IsFound : Ledger → Message → Type 0
IsFound l m =
    is_direction m.direction inbound ≡ true
    → find (has_message_key m.envelope.message_id inbound) l.messages ≡ some m

abbrev pub IsStored : State → Type 0
IsStored s = All (IsFound s.ledger) s.ledger.messages

-- A message whose row came after one number, and up to another.
abbrev pub IsBetween : ℕ → ℕ → Item → Type 0
IsBetween c n i = (k : ℕ) × (i.seq ≡ some k) × (suc c ≤ k) × (k ≤ n)

abbrev pub IsAfter : ℕ → Item → Type 0
IsAfter c i = (k : ℕ) × (i.seq ≡ some k) × (suc c ≤ k)

-- Each message that is notified came after the cursor, and after all that were notified before.
abbrev pub Follow : ℕ → List Round → Type 0
Follow c [] = Unit
Follow c (notified items ∷ rounds) = (n : ℕ) × All (IsBetween c n) items × Follow n rounds
Follow c (nothing ∷ rounds) = Follow c rounds
Follow c (failed e ∷ rounds) = Follow c rounds

module _ {ℓ} {A : Type ℓ} where
  All-take {κ} : (P : A → Type κ) (n : ℕ) (xs : List A) → All P xs → All P (take n xs)
  All-take P zero xs h = tt
  All-take P (suc n) [] h = tt
  All-take P (suc n) (x ∷ xs) (h, hs) = (h, All-take P n xs hs)

  All-select_on {κ} :
      (P : A → Type κ) (p : A → Bool) (xs : List A)
      → All P xs
      → All (λ x. P x × (p x ≡ true)) (select p xs)
  All-select_on P p [] h = tt
  All-select_on P p (x ∷ xs) (h, hs) =
      let rest = All-select_on P p xs hs in
      elim (Bool-cases (p x)) [ inl e ↦ rw e ((h, e), rest) | inr e ↦ rw e rest ]

  All-map_on {κ μ} :
      {B : Type κ} (P : A → Type μ) (Q : B → Type μ) (f : A → B) (xs : List A)
      → ((x : A) → P x → Q (f x))
      → All P xs
      → All Q (map f xs)
  All-map_on P Q f [] h hs = tt
  All-map_on P Q f (x ∷ xs) h (p, ps) = (h x p, All-map_on P Q f xs h ps)

abbrev IsPolled : ℕ → State → Result (List Item) → Type 0
IsPolled c s r =
    ((e : Error) × (r ≡ err e))
    ⊎ ((addr : String) × (r
          ≡ ok (map (item_of s.ledger) (unseen addr 50 false actionable (after_row c) s.ledger).1)))

listed_by :
    (r : Result (Address × AgentConfig)) (c : ℕ) (s : State)
    → IsPolled c s
        (continue r
          (λ who. do
            envs ← listed false (to_text who.0) 50 true actionable (after_row c)
            l ← gets (λ (s : State). s.ledger)
            pure (map (item_of l) envs))
          s).0
unfolding unseen
listed_by (err e) c s = inl (e, refl)
listed_by (ok who) c s = inr (to_text who.0, refl)

poll_cases : (me : String) (c : ℕ) (s : State) → IsPolled c s (poll me c s)
unfolding inbox local_agent
poll_cases me c s = listed_by (local_agent s.cfg (some me)) c s

-- A stored row that is not seen yet gives an item after the cursor.
row-IsAfter :
    (l : Ledger) (addr : String) (c : ℕ) (m : Message)
    → IsFound l m × (is_unseen addr actionable (after_row c) m ≡ true)
    → IsAfter c (item_of l m.envelope)
row-IsAfter l addr c m (f, u) =
    let d : is_direction m.direction inbound ≡ true = ground arith in
    let a : suc c ≤ m.rowid = ground arith in
    (m.rowid, ap (λ (o : Option Message). elim o [ none ↦ none | some r ↦ some r.rowid ]) (f d), a)

polled-IsAfter :
    (addr : String) (c : ℕ) (s : State)
    → IsStored s
    → All
        (IsAfter c)
        (map (item_of s.ledger) (unseen addr 50 false actionable (after_row c) s.ledger).1)
unfolding unseen
polled-IsAfter addr c s h =
    let p = is_unseen addr actionable (after_row c) in
    let l = s.ledger in
    All-map_on (λ (e : Envelope). IsAfter c (item_of l e)) (IsAfter c) (item_of l) _ (λ e k. k)
      (All-map_on (λ m. IsFound l m × (p m ≡ true)) _ (λ (m : Message). m.envelope)
        (take 50 (select p l.messages)) (λ m. row-IsAfter l addr c m)
        (All-take _ 50 (select p l.messages) (All-select_on _ p l.messages h)))

max_seq-IsBetween :
    (c n : ℕ) (items : List Item)
    → suc c ≤ n
    → All (IsAfter c) items
    → (k : ℕ) × (max_seq n items ≡ ok k) × (n ≤ k) × All (IsBetween c k) items
max_seq-IsBetween c n [] a h = (n, refl, omega arith, tt)
max_seq-IsBetween c n (i ∷ items) a ((k, e, ck), hs) =
    let g : ℕ = if ltb n k then k else n in
    let after : suc c ≤ g = ground arith in
    let first : n ≤ g = ground arith in
    let second : k ≤ g = ground arith in
    let (last, is_last, up, all_) = max_seq-IsBetween c g items after hs in
    (last, rw e is_last, omega arith, ((k, e, ck, omega arith), all_))

-- A round on rows that came after the cursor does not fail.
round-Follow :
    (c : ℕ) (items : List Item)
    → All (IsAfter c) items
    → (r : Round) × (n : ℕ) × (round_of c (ok items) ≡ ok (r, n))
      × ((rs : List Round) → Follow n rs → Follow c (r ∷ rs))
round-Follow c [] h = (nothing, c, refl, λ rs f. f)
round-Follow c (i ∷ items) ((k, e, ck), hs) =
    let (last, is_last, up, all_) = max_seq-IsBetween c k items ck hs in
    (notified (i ∷ items), last, (rw (e, is_last) refl), λ rs f. (last, ((k, e, ck, up), all_), f))

poll-Follow :
    (c : ℕ) (s : State) (r : Result (List Item))
    → IsStored s
    → IsPolled c s r
    → (o : Round) × (n : ℕ) × (round_of c r ≡ ok (o, n))
      × ((rs : List Round) → Follow n rs → Follow c (o ∷ rs))
poll-Follow c s r h (inl (x, e)) = rw e (failed x, c, refl, λ rs f. f)
poll-Follow c s r h (inr (addr, e)) = rw e (round-Follow c _ (polled-IsAfter addr c s h))

abbrev IsOnce : ℕ → List Round × Option Error → Type 0
IsOnce c (rounds, e) = (e ≡ none) × Follow c rounds

go_on-IsOnce :
    (c : ℕ) (r : Result (Round × ℕ)) (next : ℕ → List Round × Option Error) (o : Round) (n : ℕ)
    → r ≡ ok (o, n)
    → ((rs : List Round) → Follow n rs → Follow c (o ∷ rs))
    → IsOnce n (next n)
    → IsOnce c (go_on r next)
go_on-IsOnce c r next o n e follow (none_, later) = rw e (none_, follow (next n).0 later)

-- If the rows of received messages are found by their keys, the notifier goes on whatever happens, and
-- tells of no message twice: each that it tells of came after the cursor, and after all told before.
pub watch_once :
    (me : String) (c : ℕ) (states : List State)
    → All IsStored states
    → ((watch me c states).1 ≡ none) × Follow c (watch me c states).0
unfolding watch
watch_once me c [] h = (refl, tt)
watch_once me c (s ∷ rest) (h, hs) =
    let (o, n, e, follow) = poll-Follow c s (poll me c s) h (poll_cases me c s) in
    go_on-IsOnce c _ (λ k. watch me k rest) o n e follow (watch_once me n rest hs)
