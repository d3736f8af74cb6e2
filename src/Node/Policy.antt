-- ===== src/Node/Policy.antt =====
-- The policy of an agent on requests (src/mutmuas/node.py: _check_policy).
use mutmuas.Prelude.{◌≡◌, refl, ◌↔◌, true, none, arith, inl, inr}
use mutmuas.Result.{ok, Result-cases}
use mutmuas.Json.{str, get_or}
use mutmuas.Config.{AgentConfig, has, accepts}
use mutmuas.Protocol.Types.{Kind, needed_permission}
use mutmuas.Protocol.Envelope.{Envelope, check_kind}
use mutmuas.Node.Requests.{check_policy}

-- What a request needs to be admitted.
pub record IsAdmitted (agent : AgentConfig) (env : Envelope) : Type 0 where
  pub sender : accepts agent env.sender ≡ true
  pub kind : Kind
  pub kind_of : check_kind (get_or env.body "kind" (str "query")) ≡ ok kind
  pub permission : has agent (needed_permission kind) ≡ true

policy_sound :
    (agent : AgentConfig) (env : Envelope) → check_policy agent env ≡ ok none → IsAdmitted agent env
unfolding check_policy
policy_sound agent env h = elim (Result-cases (check_kind (get_or env.body "kind" (str "query")))) [
  | inl (k, e) ↦ record { sender = ground arith; kind = k; kind_of = e; permission = ground arith }
  | inr (x, e) ↦ absurd (ground arith)
]

-- A request is admitted exactly when the agent accepts its sender and holds the permission that its kind
-- needs.
pub check_policy_iff :
    (agent : AgentConfig) (env : Envelope)
    → (check_policy agent env ≡ ok none) ↔ IsAdmitted agent env
unfolding check_policy
check_policy_iff agent env =
    (policy_sound agent env, λ h. rw (h.sender, h.kind_of, h.permission) refl)
