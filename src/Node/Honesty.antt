-- ===== src/Node/Honesty.antt =====
-- The status of a reported result (src/mutmuas/node.py: _result_from, _attach_git).
use Prim.Native.String.{◌++◌ as ◌⧺◌}
use mutmuas.Prelude.{
  Bool, if◌then◌else◌, String, ◌≡◌, refl, ◌∙◌, true, false, not, ◌&&◌, Option, some, List, [], ◌∷◌,
  all, arith, ◌==◌, Bool-cases, Option-cases, inl, inr,
}
use mutmuas.Result.{ok, >>=-eq-ok}
use mutmuas.Json.{
  null, is_empty, append_item, Json, str, arr, nil, obj, Fields, end, field, get, get_or, put,
  without,
}
use mutmuas.Json.Lookup.{get_or-put, get_or-without}
use mutmuas.Protocol.Types.{result_status}
use mutmuas.Protocol.Envelope.{ArtifactRef}
use mutmuas.Protocol.Bodies.{put_given, result_body, ResultOptions}
use mutmuas.Node.Results.{
  RunOutcome, is_structured, add_limitation, limitations_of, is_complete, downgrade, structured,
  unstructured, refs_of, unverified, exit_status, summary_of, candidate, result_from, GitSummary,
  attach_git, limit_if, patch_refs, without_commits, with_git,
}

limited-status :
    (body b : Fields) (text : String) (v : Json)
    → limitations_of body text v ≡ ok b
    → get b "status" ≡ get body "status"
limited-status body b text (arr xs) h =
    let same : put body "limitations" (arr (append_item xs (str text))) ≡ b = ground arith in
    rw (← same) (get_or-put body "limitations" "status" (arr (append_item xs (str text))) null)
limited-status body b text _ h = cc

add_limitation-status :
    (body b : Fields) (text : String)
    → add_limitation body text ≡ ok b
    → get b "status" ≡ get body "status"
unfolding add_limitation
add_limitation-status body b text h =
    limited-status body b text (get_or body "limitations" (arr nil)) h

get-put_unless :
    (b : Bool) (body : Fields) (i k : String) (v : Json)
    → (i == k) ≡ false
    → get (if b then body else put body i v) k ≡ get body k
get-put_unless true body i k v h = refl
get-put_unless false body i k v h = get_or-put body i k v null ∙ rw h refl

put_given-get :
    (l : List (String × Json)) (body : Fields) (k : String)
    → all (λ p. not (p.0 == k)) l ≡ true
    → get (put_given l body) k ≡ get body k
unfolding put_given
put_given-get [] body k h = refl
put_given-get ((i, v) ∷ l) body k h =
    put_given-get l (if is_empty v then body else put body i v) k (ground arith)
    ∙ get-put_unless (is_empty v) body i k v (ground arith)

result_body-status :
    (status summary : String) (o : ResultOptions) (b : Fields)
    → result_body status summary o ≡ ok b
    → get b "status" ≡ str status
unfolding result_body
result_body-status status summary o b h = elim (Option-cases (result_status status)) [
  | inl missing ↦ absurd (ground arith)
  | inr (r, known) ↦
      let given =
        ("outputs", o.outputs)
        ∷ ("evidence", o.evidence)
        ∷ ("limitations", o.limitations)
        ∷ ("follow_up", o.follow_up)
        ∷ [] in
      let start = field "status" (str status) (field "summary" (str summary) end) in
      let same : put_given given start ≡ b = ground arith in
      rw (← same) (put_given-get given start "status" refl)
]

downgrade-honest :
    (o : RunOutcome) (body b : Fields)
    → downgrade o body ≡ ok b
    → is_complete (get b "status") ≡ true
    → (o.exit_ok ≡ true) × (is_complete (get body "status") ≡ true)
unfolding downgrade
downgrade-honest o body b h complete =
    elim (Bool-cases (not o.exit_ok && is_complete (get body "status"))) [
      | inl worse ↦
          let partial = put body "status" (str "partial") in
          let limited : add_limitation partial ("agent process exited with code " ⧺ o.exit_text)
              ≡ ok b =
            ground arith in
          let kept =
            add_limitation-status partial b ("agent process exited with code " ⧺ o.exit_text)
              limited in
          let written = get_or-put body "status" "status" (str "partial") null in
          absurd (ground (arith, kept ∙ written))
      | inr fine ↦ ground arith
    ]

structured-honest :
    (o : RunOutcome) (c b : Fields) (refs : List ArtifactRef)
    → structured o c ≡ ok (b, refs)
    → is_complete (get b "status") ≡ true
    → (o.exit_ok ≡ true) × (is_complete (get c "status") ≡ true)
unfolding structured
structured-honest o c b refs h complete =
    let (rs, read, rest) = >>=-eq-ok (refs_of (get_or c "artifacts" (arr nil))) _ h in
    let (d, lowered, last) = >>=-eq-ok (downgrade o (without c "artifacts")) _ rest in
    let same : d ≡ b = ground arith in
    let (fine, claimed) =
      downgrade-honest o (without c "artifacts") b (rw (← same) lowered) complete in
    (fine, ground (arith, get_or-without c "artifacts" "status" null refl))

never_complete : (b : Bool) → ((if b then "partial" else "failed") == "complete") ≡ false
never_complete true = refl
never_complete false = refl

unstructured-partial :
    (o : RunOutcome) (b : Fields) (refs : List ArtifactRef)
    → unstructured o ≡ ok (b, refs)
    → is_complete (get b "status") ≡ false
unfolding unstructured
unstructured-partial o b refs h =
    let (d, built, last) =
      >>=-eq-ok (result_body (exit_status o) (summary_of o) (unverified o)) _ h in
    let same : d ≡ b = ground arith in
    let status = result_body-status (exit_status o) (summary_of o) (unverified o) d built in
    rw (← same) (rw status (never_complete o.exit_ok))

-- A run is reported as complete only if its process exited with code 0 and handed in a structured result,
-- as a draft or in its output, whose status is complete.
pub result_from-honest :
    (draft : Option Fields) (o : RunOutcome) (b : Fields) (refs : List ArtifactRef)
    → result_from draft o ≡ ok (b, refs)
    → is_complete (get b "status") ≡ true
    → (o.exit_ok ≡ true)
      × ((c : Fields) × (candidate draft o ≡ some c)
          × (is_structured c ≡ true)
          × (is_complete (get c "status") ≡ true))
unfolding result_from
result_from-honest draft o b refs h complete = elim (Option-cases (candidate draft o)) [
  | inl none_given ↦ absurd (ground (arith, unstructured-partial o b refs))
  | inr (c, given) ↦ elim (Bool-cases (is_structured c)) [
    | inl good ↦
        let honest = structured-honest o c b refs (ground arith) complete in
        (honest.0, (c, given, good, honest.1))
    | inr bad ↦ absurd (ground (arith, unstructured-partial o b refs))
  ]
]

limit_if-status :
    (b : Bool) (text : String) (body d : Fields)
    → limit_if b text body ≡ ok d
    → get d "status" ≡ get body "status"
limit_if-status true text body d h = add_limitation-status body d text h
limit_if-status false text body d h = ground arith

without_commits-honest :
    (commits : Bool) (d b : Fields)
    → without_commits commits d ≡ ok b
    → is_complete (get b "status") ≡ true
    → (commits ≡ true) × (is_complete (get d "status") ≡ true)
without_commits-honest true d b h complete = (refl, ground arith)
without_commits-honest false d b h complete = elim (Bool-cases (is_complete (get d "status"))) [
  | inl worse ↦
      let partial = put d "status" (str "partial") in
      let limited : add_limitation partial "code task finished without any commit" ≡ ok b =
        ground arith in
      let kept = add_limitation-status partial b "code task finished without any commit" limited in
      let written = get_or-put d "status" "status" (str "partial") null in
      absurd (ground (arith, kept ∙ written))
  | inr fine ↦ absurd (ground arith)
]

-- What git adds to a code task never makes it complete: if it is complete with the branch attached, then
-- it was before, and there are commits.
pub attach_git-honest :
    (text : String) (g : GitSummary) (body b : Fields) (refs rs : List ArtifactRef)
    → attach_git text (some g) body refs ≡ ok (b, rs)
    → is_complete (get b "status") ≡ true
    → (g.has_commits ≡ true) × (is_complete (get body "status") ≡ true)
unfolding attach_git
attach_git-honest text g body b refs rs h complete =
    let out = put body "outputs" (obj (with_git (get body "outputs") g.summary)) in
    let note : String = "worktree has uncommitted changes that are not in the patch" in
    let (patch, published, after) = >>=-eq-ok (patch_refs g.patch_ref) _ h in
    let (d, limited, rest) = >>=-eq-ok (limit_if g.is_dirty note out) _ after in
    let (e, checked, last) = >>=-eq-ok (without_commits g.has_commits d) _ rest in
    let same : e ≡ b = ground arith in
    let claimed = without_commits-honest g.has_commits d b (rw (← same) checked) complete in
    (
      claimed.0,
      ground (
        arith,
        claimed.1,
        limit_if-status g.is_dirty note out d limited,
        get_or-put body "outputs" "status" (obj (with_git (get body "outputs") g.summary)) null,
      ),
    )
