-- ===== src/Node/Queue.antt =====
-- The runners' queue (src/mutmuas/node.py: _enqueue, _runner).
use mutmuas.Prelude.{
  ℕ, ◌+◌, ◌≤◌, String, ◌≡◌, refl, true, false, not, some, List, [], ◌∷◌, ◌++◌, any, select, arith,
  ◌==◌, eq_iff, Bool-cases, Option-cases, inl, inr, if◌then◌else◌, ◌⊎◌,
}
use mutmuas.Hub.State.{State}
use mutmuas.Node.Requests.{enqueue, is_pair}
use mutmuas.Node.Runner.{take_first, take_task, release, is_entry}

-- How often a task of an agent stands in a list.
abbrev pub times : String → String → List (String × String) → ℕ
times a t [] = 0
times a t (e ∷ rest) = (if is_pair a t e then 1 else 0) + times a t rest

-- The daemon's queues, and the tasks that its runners have taken and not let go of.
abbrev pub Held : Type 0
Held = State × List (String × String)

-- A task that is marked as queued stands in the queue, or is with one runner, and only once.
abbrev pub IsSound : Held → Type 0
IsSound (s, held) =
    (a t : String)
    → (times a t s.queue + times a t held ≡ times a t s.queued) × (times a t s.queued ≤ 1)

times-append :
    (a t : String) (xs ys : List (String × String))
    → times a t (xs ++ ys) ≡ times a t xs + times a t ys
times-append a t [] ys = omega arith
times-append a t (x ∷ xs) ys = omega (arith, times-append a t xs ys)

times-any :
    (a t : String) (xs : List (String × String)) → any (is_pair a t) xs ≡ false → times a t xs ≡ 0
times-any a t [] h = refl
times-any a t (x ∷ xs) h = ground (arith, times-any a t xs)

one_entry : (a t b u : String) → is_pair a t (b, u) ≡ true → (a ≡ b) × (t ≡ u)
one_entry a t b u h = ground (arith, eq_iff b a, eq_iff u t)

-- A task that is not in a list is in it once when it is added.
added :
    (a t b u : String) (xs : List (String × String))
    → any (is_pair b u) xs ≡ false
    → (is_pair a t (b, u) ≡ false) ⊎ (times a t xs ≡ 0)
added a t b u xs h = elim (Bool-cases (is_pair a t (b, u))) [
  | inl mine ↦
      let (same_a, same_t) = one_entry a t b u mine in
      inr (rw (same_a, same_t) (times-any b u xs h))
  | inr other ↦ inl other
]

enqueue-IsSound :
    (addr id : String) (s : State) (held : List (String × String))
    → IsSound (s, held)
    → IsSound (enqueue addr id s, held)
unfolding enqueue
enqueue-IsSound addr id s held sound a t = elim (Bool-cases (any (is_pair addr id) s.queued)) [
  | inl old ↦ rw old (sound a t)
  | inr new ↦ rw new (
      ground (
        arith,
        added a t addr id s.queued new,
        times-append a t s.queue ((addr, id) ∷ []),
        times-append a t s.queued ((addr, id) ∷ []),
        sound a t,
      ))
]

first_taken :
    (addr u a t : String) (q r : List (String × String))
    → take_first addr q ≡ some (u, r)
    → times a t q ≡ (if is_pair a t (addr, u) then 1 else 0) + times a t r
unfolding take_first
first_taken addr u a t [] r h = cc
first_taken addr u a t ((b, v) ∷ q) r h = elim (Bool-cases (b == addr)) [
  | inl mine ↦
      let parts : (v ≡ u) × (q ≡ r) = ground arith in
      rw ((eq_iff b addr).0 mine, parts.0, parts.1) refl
  | inr other ↦ elim (Option-cases (take_first addr q)) [
    | inl none_there ↦ absurd (ground arith)
    | inr ((w, p), there) ↦
        let parts : (w ≡ u) × ((b, v) ∷ p ≡ r) = ground arith in
        rw (← parts.1, ← parts.0) (omega (arith, first_taken addr w a t q p there))
  ]
]

take_task-IsSound :
    (addr id : String) (s s' : State) (held : List (String × String))
    → take_task addr s ≡ some (id, s')
    → IsSound (s, held)
    → IsSound (s', (addr, id) ∷ held)
unfolding take_task
take_task-IsSound addr id s s' held h sound = elim (Option-cases (take_first addr s.queue)) [
  | inl empty ↦ absurd (ground arith)
  | inr ((u, rest), there) ↦
      let parts : (u ≡ id) × (s'.queue ≡ rest) × (s'.queued ≡ s.queued) = ground arith in
      let (pu, pq, pd) = parts in
      λ a t.
        rw (pq, pd, ← pu)
          (omega (arith, first_taken addr u a t s.queue rest there, (sound a t).0), (sound a t).1)
]

released :
    (addr id a t : String) (xs : List (String × String))
    → times a t (select (λ e. not (is_entry addr id e)) xs)
      ≡ (if is_pair addr id (a, t) then 0 else times a t xs)
released addr id a t [] = ground arith
released addr id a t ((b, u) ∷ xs) = ground (
  arith,
  released addr id a t xs,
  eq_iff b addr,
  eq_iff u id,
  eq_iff b a,
  eq_iff u t,
  eq_iff a addr,
  eq_iff t id,
)

-- The list without the first entry for a task.
abbrev pub let_go : String → String → List (String × String) → List (String × String)
let_go addr id [] = []
let_go addr id (e ∷ rest) = if is_pair addr id e then rest else e ∷ let_go addr id rest

times-let_go :
    (addr id a t : String) (xs : List (String × String))
    → any (is_pair addr id) xs ≡ true
    → times a t xs ≡ (if is_pair a t (addr, id) then 1 else 0) + times a t (let_go addr id xs)
times-let_go addr id a t [] h = cc
times-let_go addr id a t ((b, u) ∷ xs) h = elim (Bool-cases (is_pair addr id (b, u))) [
  | inl mine ↦
      let (same_a, same_t) = one_entry addr id b u mine in rw mine (rw (same_a, same_t) refl)
  | inr other ↦ rw other (ground (arith, times-let_go addr id a t xs))
]

release-IsSound :
    (addr id : String) (s : State) (held : List (String × String))
    → any (is_pair addr id) held ≡ true
    → IsSound (s, held)
    → IsSound (release addr id s, let_go addr id held)
unfolding release
release-IsSound addr id s held has sound a t =
    let left = times-let_go addr id a t held has in
    elim (Bool-cases (is_pair addr id (a, t))) [
      | inl mine ↦
          let (same_a, same_t) = one_entry addr id a t mine in
          let own : is_pair a t (addr, id) ≡ true =
            ground (arith, same_a, same_t, eq_iff addr a, eq_iff id t) in
          let left' = rw own at left in
          rw (released addr id a t s.queued, mine)
            (omega (arith, left', (sound a t).0, (sound a t).1), omega arith)
      | inr other ↦
          let own : is_pair a t (addr, id) ≡ false =
            ground (arith, eq_iff a addr, eq_iff t id, eq_iff addr a, eq_iff id t) in
          let left' = rw own at left in
          rw (released addr id a t s.queued, other)
            (omega (arith, left', (sound a t).0), (sound a t).1)
    ]

-- What the dispatcher and the runners do with the queue.
pub data Turn : Held → Held → Type 0 where
  puts :
      (addr id : String) {s : State} {held : List (String × String)}
      → Turn (s, held) (enqueue addr id s, held)
  takes :
      {addr id : String} {s s' : State} {held : List (String × String)}
      → take_task addr s ≡ some (id, s')
      → Turn (s, held) (s', (addr, id) ∷ held)
  lets_go :
      (addr id : String) {s : State} {held : List (String × String)}
      → any (is_pair addr id) held ≡ true
      → Turn (s, held) (release addr id s, let_go addr id held)

pub data Turns (h : Held) : Held → Type 0 where
  here : Turns h h
  next : {k l : Held} → Turns h k → Turn k l → Turns h l

Turn-IsSound : {h k : Held} → Turn h k → IsSound h → IsSound k
Turn-IsSound (puts addr id {s} {held}) sound = enqueue-IsSound addr id s held sound
Turn-IsSound (takes {addr} {id} {s} {s'} {held} e) sound =
    take_task-IsSound addr id s s' held e sound
Turn-IsSound (lets_go addr id {s} {held} e) sound = release-IsSound addr id s held e sound

-- However often tasks are queued, taken by runners and let go of, in any order, each task that is marked
-- as queued waits in its agent's queue or is with one runner, and only once, if it was so at the beginning.
pub queue-IsSound : {h k : Held} → Turns h k → IsSound h → IsSound k
queue-IsSound here sound = sound
queue-IsSound (next turns turn) sound = Turn-IsSound turn (queue-IsSound turns sound)
