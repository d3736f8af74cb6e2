-- ===== src/Protocol/Valid.antt =====
-- What a valid envelope is, said without the tests of `validate` (src/mutmuas/protocol.py).
use mutmuas.Prelude.{
  String, ◌≡◌, ◌≤◌, refl, ap, Bool-cases, ◌⊎◌, inl, inr, Option, some, Bool, true, false, ◌&&◌, any,
  arith, ◌==◌, eq_iff, Option-cases,
}
use mutmuas.Result.{ok, Ensures, Ensures-bind}
use mutmuas.Json.{
  Json, null, bool, num, Number, decimal, infinite, nan, le_zero, Fields, obj, str, get, get_or,
  is_blank,
}
use mutmuas.Ids.{Address, parse}
use mutmuas.Protocol.Types.{
  MessageType, Kind, TaskState, task_state, ResultStatus, required_body, needs_task, result_status,
}
use mutmuas.Protocol.Envelope.{
  Envelope, validate, check_protocol, is_absent, check_body, check_address, check_kind, major,
  is_priority, bad_timeout, is_update_state,
}
use mutmuas.Protocol.Codec.{Fresh, from_dict, from_fields}

-- A number above zero. Python's NaN is neither below zero nor zero, and passes.
abbrev pub IsPositive : Number → Type 0
IsPositive (decimal negative digits scale) = (negative ≡ false) × (1 ≤ digits)
IsPositive (infinite negative) = negative ≡ false
IsPositive nan = Unit

-- A timeout that may be missing. Python counts `true` as the number one.
abbrev pub IsTimeout : Json → Type 0
IsTimeout null = Unit
IsTimeout (bool b) = b ≡ true
IsTimeout (num n) = IsPositive n
IsTimeout _ = ⊥

abbrev pub IsPriority : Json → Type 0
IsPriority p = (p ≡ str "low") ⊎ ((p ≡ str "normal") ⊎ (p ≡ str "high"))

-- A state of a task, or none.
abbrev pub IsState : Json → Type 0
IsState v = (v ≡ null) ⊎ ((s : String) × (t : TaskState) × (v ≡ str s) × (task_state s ≡ some t))

pub record IsValid (e : Envelope) : Type 0 where
  pub sender : (a : Address) × (parse e.sender ≡ ok a)
  pub to : (a : Address) × (parse e.to ≡ ok a)
  pub protocol : (s : String) × (e.protocol ≡ str s) × ((major s == "mutmuas") ≡ true)
  pub priority : IsPriority e.priority
  pub task : needs_task e.type ≡ true → (s : String) × (e.task_id ≡ some s) × ((s == "") ≡ false)
  pub required : any (λ k. is_blank (get e.body k)) (required_body e.type) ≡ false
  pub kind :
      e.type ≡ MessageType.request
      → (k : Kind) × (check_kind (get_or e.body "kind" (str "query")) ≡ ok k)
  pub timeout : e.type ≡ MessageType.request → IsTimeout (get e.body "timeout_s")
  pub state : e.type ≡ MessageType.update → IsState (get e.body "state")
  pub result :
      e.type ≡ MessageType.result
      → (s : String) × (r : ResultStatus) × (get e.body "status" ≡ str s)
        × (result_status s ≡ some r)

check_address-ok : (s : String) → check_address s ≡ ok tt → (a : Address) × (parse s ≡ ok a)
unfolding check_address
check_address-ok s h = ground arith

-- The tests that `validate` passes, one by one.
record IsChecked (e : Envelope) : Type 0 where
  protocol : check_protocol e.protocol ≡ ok tt
  sender : check_address e.sender ≡ ok tt
  to : check_address e.to ≡ ok tt
  priority : is_priority e.priority ≡ true
  task : (needs_task e.type && is_absent e.task_id) ≡ false
  required : any (λ k. is_blank (get e.body k)) (required_body e.type) ≡ false
  body : check_body e.type e.body ≡ ok tt

validate-IsChecked : (e v : Envelope) → validate e ≡ ok v → IsChecked e × (e ≡ v)
unfolding validate
validate-IsChecked e v h = (
  record {
    protocol = ground arith;
    sender = ground arith;
    to = ground arith;
    priority = ground arith;
    task = ground arith;
    required = ground arith;
    body = ground arith;
  },
  ground arith,
)

kind_of_checked :
    (t : MessageType) (b : Fields)
    → check_body t b ≡ ok tt
    → t ≡ MessageType.request
    → (k : Kind) × (check_kind (get_or b "kind" (str "query")) ≡ ok k)
unfolding check_body
kind_of_checked t b h e = ground arith

is_priority-IsPriority : (p : Json) → is_priority p ≡ true → IsPriority p
is_priority-IsPriority (str s) h = elim (Bool-cases (s == "low")) [
  | inl e ↦ inl (ap str ((eq_iff s "low").0 e))
  | inr n ↦ elim (Bool-cases (s == "normal")) [
    | inl e ↦ inr (inl (ap str ((eq_iff s "normal").0 e)))
    | inr m ↦ inr (inr (ap str ((eq_iff s "high").0 (ground arith))))
  ]
]
is_priority-IsPriority _ h = cc

bad_timeout-IsTimeout : (v : Json) → bad_timeout v ≡ false → IsTimeout v
unfolding le_zero
bad_timeout-IsTimeout null h = tt
bad_timeout-IsTimeout (bool b) h = ground arith
bad_timeout-IsTimeout (num (decimal n d s)) h = ground arith
bad_timeout-IsTimeout (num (infinite n)) h = h
bad_timeout-IsTimeout (num nan) h = tt
bad_timeout-IsTimeout _ h = cc

check_body-IsTimeout :
    (t : MessageType) (b : Fields)
    → check_body t b ≡ ok tt
    → t ≡ MessageType.request
    → IsTimeout (get b "timeout_s")
unfolding check_body
check_body-IsTimeout t b h e = bad_timeout-IsTimeout (get b "timeout_s") (ground arith)

is_update_state-IsState : (v : Json) → is_update_state v ≡ true → IsState v
is_update_state-IsState null h = inl refl
is_update_state-IsState (str s) h = elim (Option-cases (task_state s)) [
  | inl e ↦ absurd (ground arith)
  | inr (t, e) ↦ inr (s, t, refl, e)
]
is_update_state-IsState _ h = cc

check_body-IsState :
    (t : MessageType) (b : Fields)
    → check_body t b ≡ ok tt
    → t ≡ MessageType.update
    → IsState (get b "state")
unfolding check_body
check_body-IsState t b h e = is_update_state-IsState (get b "state") (ground arith)

status_of_checked :
    (t : MessageType) (b : Fields)
    → check_body t b ≡ ok tt
    → t ≡ MessageType.result
    → (s : String) × (r : ResultStatus) × (get b "status" ≡ str s) × (result_status s ≡ some r)
unfolding check_body
status_of_checked t b h e = ground arith

protocol_of_checked :
    (p : Json)
    → check_protocol p ≡ ok tt
    → (s : String) × (p ≡ str s) × ((major s == "mutmuas") ≡ true)
unfolding check_protocol
protocol_of_checked p h = ground arith

task_of_checked :
    (b : Bool) (o : Option String)
    → (b && is_absent o) ≡ false
    → b ≡ true
    → (s : String) × (o ≡ some s) × ((s == "") ≡ false)
task_of_checked b o h e = ground arith

pub validate-IsValid : (e v : Envelope) → validate e ≡ ok v → IsValid v
validate-IsValid e v h =
    let (c, same) = validate-IsChecked e v h in
    rw (← same) (record {
      sender = check_address-ok e.sender c.sender;
      to = check_address-ok e.to c.to;
      protocol = protocol_of_checked e.protocol c.protocol;
      priority = is_priority-IsPriority e.priority c.priority;
      task = task_of_checked (needs_task e.type) e.task_id c.task;
      required = c.required;
      kind = kind_of_checked e.type e.body c.body;
      timeout = check_body-IsTimeout e.type e.body c.body;
      state = check_body-IsState e.type e.body c.body;
      result = status_of_checked e.type e.body c.body;
    })

validate-Ensures : (e : Envelope) → Ensures IsValid (validate e)
validate-Ensures e = record { at = validate-IsValid e }

from_fields-Ensures : (fresh : Fresh) (d : Fields) → Ensures IsValid (from_fields fresh d)
unfolding from_fields
from_fields-Ensures fresh d = search (Ensures-bind, validate-Ensures) depth 16

-- Whatever JSON object arrives, an envelope that `from_dict` returns is valid.
pub from_dict-IsValid :
    (fresh : Fresh) (d : Json) (e : Envelope) → from_dict fresh d ≡ ok e → IsValid e
unfolding from_dict
from_dict-IsValid fresh (obj d) e h = (from_fields-Ensures fresh d).at e h
from_dict-IsValid fresh _ e h = cc
