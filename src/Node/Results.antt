-- ===== src/Node/Results.antt =====
-- What a run delivers (src/mutmuas/node.py: _result_from, _attach_git; runtime.py: RunOutcome).
use Prim.Native.String.{◌++◌ as ◌⧺◌}
use mutmuas.Prelude.{
  String, Bool, true, false, not, ◌&&◌, Option, none, some, List, [], ◌∷◌, ◌++◌, clip, ◌==◌,
  if◌then◌else◌,
}
use mutmuas.Result.{Result, ok, err, attribute_error, type_error, ◌>>=◌}
use mutmuas.Json.{
  Json, null, str, arr, obj, Items, nil, cons, Fields, end, field, get, get_or, put, without,
  append_item, truthy,
}
use mutmuas.Protocol.Types.{result_status}
use mutmuas.Protocol.Envelope.{ArtifactRef, malformed}
use mutmuas.Protocol.Codec.{refs_from}
use mutmuas.Protocol.Bodies.{result_body, ResultOptions}

-- `RunOutcome`: whether the exit code is 0 and how it prints, the end of the output, the result
-- parsed from it, and the log's path with the error lines that `_error_lines` finds in it.
pub record RunOutcome : Type 0 where
  pub exit_ok : Bool
  pub exit_text : String
  pub output_end : String
  pub result : Option Fields
  pub log_path : String
  pub error_lines : List String

-- candidate.get("status") in (...) and candidate.get("summary")
abbrev pub has_status : Json → Bool
has_status (str s) = elim (result_status s) [ none ↦ false | some _ ↦ true ]
has_status _ = false

abbrev pub is_structured : Fields → Bool
is_structured c = has_status (get c "status") && truthy (get c "summary")

-- [ArtifactRef.from_dict(a) for a in candidate.get("artifacts", [])]
abbrev pub refs_of : Json → Result (List ArtifactRef)
refs_of (arr xs) = refs_from xs
refs_of (str s) = if s == "" then ok [] else err malformed
refs_of (obj end) = ok []
refs_of (obj (field _ _ _)) = err malformed
refs_of _ = err type_error

-- body.setdefault("limitations", []).append(text)
abbrev pub limitations_of : Fields → String → Json → Result Fields
limitations_of body text (arr xs) = ok (put body "limitations" (arr (append_item xs (str text))))
limitations_of body text _ = err attribute_error

unfoldable pub add_limitation : Fields → String → Result Fields
add_limitation body text = limitations_of body text (get_or body "limitations" (arr nil))

abbrev pub is_complete : Json → Bool
is_complete (str s) = s == "complete"
is_complete _ = false

-- A claim of `complete` by a process that failed becomes `partial`.
unfoldable pub downgrade : RunOutcome → Fields → Result Fields
unfolding add_limitation
downgrade o body =
    if not o.exit_ok && is_complete (get body "status")
    then add_limitation (put body "status" (str "partial"))
        ("agent process exited with code " ⧺ o.exit_text)
    else ok body

unfoldable pub structured : RunOutcome → Fields → Result (Fields × List ArtifactRef)
unfolding downgrade
structured o c = do
  refs ← refs_of (get_or c "artifacts" (arr nil))
  body ← downgrade o (without c "artifacts")
  ok (body, refs)

abbrev pub last_line : List String → Option String
last_line [] = none
last_line (l ∷ []) = some l
last_line (l ∷ m ∷ rest) = last_line (m ∷ rest)

abbrev pub texts : List String → Items
texts [] = nil
texts (s ∷ rest) = cons (str s) (texts rest)

abbrev pub outputs_of : RunOutcome → Fields
outputs_of o = elim o.error_lines [
  | [] ↦ field "raw_output_tail" (str o.output_end) end
  | l ∷ rest ↦
      field "raw_output_tail" (str o.output_end)
        (field "error_lines" (arr (cons (str l) (texts rest))) end)
]

abbrev pub summary_of : RunOutcome → String
summary_of o =
    let base = "agent finished without a structured result (exit code " ⧺ (o.exit_text ⧺ ")") in
    elim (last_line o.error_lines) [ none ↦ base | some l ↦ base ⧺ (": " ⧺ clip 200 l) ]

abbrev pub unverified : RunOutcome → ResultOptions
unverified o = record {
  outputs = obj (outputs_of o);
  evidence = null;
  limitations = arr (
      cons (str "no submit_result call; outcome could not be verified")
        (cons (str ("log: " ⧺ o.log_path)) nil));
  follow_up = null;
}

abbrev pub exit_status : RunOutcome → String
exit_status o = if o.exit_ok then "partial" else "failed"

unfoldable pub unstructured : RunOutcome → Result (Fields × List ArtifactRef)
unfolding result_body
unstructured o = do body ← result_body (exit_status o) (summary_of o) (unverified o); ok (body, [])

-- draft or outcome.result
abbrev pub candidate : Option Fields → RunOutcome → Option Fields
candidate none o = o.result
candidate (some end) o = o.result
candidate (some (field k v r)) o = some (field k v r)

-- `_result_from`
unfoldable pub result_from : Option Fields → RunOutcome → Result (Fields × List ArtifactRef)
unfolding structured unstructured
result_from draft o = elim (candidate draft o) [
  | none ↦ unstructured o
  | some c ↦ if is_structured c then structured o c else unstructured o
]

-- What git and the artifact store answer for a task's worktree: a failure, or the summary.
pub record GitSummary : Type 0 where
  pub branch_ref : ArtifactRef
  -- what publishing the patch returned or raised, if there is one
  pub patch_ref : Option (Result ArtifactRef)
  pub summary : Json
  pub has_commits : Bool
  pub is_dirty : Bool

-- {**(outputs if a dict, {"value": outputs} if truthy, else {}), "git": summary}
abbrev pub with_git : Json → Json → Fields
with_git (obj d) summary = put d "git" summary
with_git v summary =
    if truthy v then field "value" v (field "git" summary end) else field "git" summary end

abbrev pub limit_if : Bool → String → Fields → Result Fields
limit_if true text body = add_limitation body text
limit_if false text body = ok body

abbrev pub without_commits : Bool → Fields → Result Fields
without_commits true body = ok body
without_commits false body =
    if is_complete (get body "status")
    then add_limitation (put body "status" (str "partial")) "code task finished without any commit"
    else ok body

abbrev pub patch_refs : Option (Result ArtifactRef) → Result (List ArtifactRef)
patch_refs none = ok []
patch_refs (some (ok r)) = ok (r ∷ [])
patch_refs (some (err e)) = err e

-- `_attach_git`; the text is that of the git error. The error of publishing the patch is not caught.
unfoldable pub attach_git :
    String → Option GitSummary → Fields → List ArtifactRef → Result (Fields × List ArtifactRef)
unfolding add_limitation
attach_git text none body refs = do
  b ← add_limitation body ("could not read worktree: " ⧺ text)
  ok (b, refs)
attach_git text (some g) body refs = do
  let body' = put body "outputs" (obj (with_git (get body "outputs") g.summary))
  patch ← patch_refs g.patch_ref
  b ← limit_if g.is_dirty "worktree has uncommitted changes that are not in the patch" body'
  c ← without_commits g.has_commits b
  ok (c, refs ++ (g.branch_ref ∷ patch))
