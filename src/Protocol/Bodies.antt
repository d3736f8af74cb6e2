-- ===== src/Protocol/Bodies.antt =====
-- `request_body` and `result_body` (src/mutmuas/protocol.py).
use mutmuas.Prelude.{String, ◌≡◌, none, some, List, [], ◌∷◌, false, any, if◌then◌else◌}
use mutmuas.Result.{Result, ok, err}
use mutmuas.Json.{Json, str, Fields, end, field, get, is_empty, is_blank, put}
use mutmuas.Protocol.Types.{MessageType, result_status, required_body}
use mutmuas.Protocol.Envelope.{malformed, check_body}

-- `for key, value in (...): if value not in (None, "", [], {}): body[key] = value`
unfoldable pub put_given : List (String × Json) → Fields → Fields
put_given [] body = body
put_given ((key, value) ∷ rest) body =
    put_given rest (if is_empty value then body else put body key value)

pub record RequestOptions : Type 0 where
  pub inputs : Json
  pub expected_outputs : Json
  pub constraints : Json
  pub acceptance_criteria : Json
  pub deadline : Json
  pub timeout_s : Json

unfoldable pub request_body : String → String → String → RequestOptions → Fields
unfolding put_given
request_body objective reason kind o =
    put_given
      (("inputs", o.inputs)
        ∷ ("expected_outputs", o.expected_outputs)
        ∷ ("constraints", o.constraints)
        ∷ ("acceptance_criteria", o.acceptance_criteria)
        ∷ ("deadline", o.deadline)
        ∷ ("timeout_s", o.timeout_s)
        ∷ [])
      (field "objective" (str objective)
        (field "reason" (str reason) (field "kind" (str kind) end)))

pub record ResultOptions : Type 0 where
  pub outputs : Json
  pub evidence : Json
  pub limitations : Json
  pub follow_up : Json

unfoldable pub result_body : String → String → ResultOptions → Result Fields
unfolding put_given result_status
result_body status summary o = elim (result_status status) [
  | none ↦ err malformed
  | some _ ↦ ok (
      put_given
        (("outputs", o.outputs)
          ∷ ("evidence", o.evidence)
          ∷ ("limitations", o.limitations)
          ∷ ("follow_up", o.follow_up)
          ∷ [])
        (field "status" (str status) (field "summary" (str summary) end)))
]

-- The fields that a message of the type must have, none of them blank, and the checks of its type.
abbrev pub IsBody : MessageType → Fields → Type 0
IsBody t b = (any (λ k. is_blank (get b k)) (required_body t) ≡ false) × (check_body t b ≡ ok tt)
