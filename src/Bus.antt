-- ===== src/Bus.antt =====
-- Subject names and wildcards: `Names` and `_subject_match` of src/mutmuas/bus.py, and the
-- permissions of src/mutmuas/server_config.py that are written in them.
pub mod Split
pub mod Mailboxes
pub mod Matching
pub mod Routing
pub mod Publishing
use Prim.Native.String.{◌++◌}
use mutmuas.Prelude.{
  ℕ, String, Bool, true, false, not, ◌&&◌, ◌||◌, List, [], ◌∷◌, any, ◌==◌, if◌then◌else◌,
}
use mutmuas.Ids.{Address}
use Split.{split, last_or}

pub record Names : Type 0 where
  pub project : String

-- f"mm.{project}.msg"
abbrev pub msg_prefix : Names → String
msg_prefix n = "mm." ++ (n.project ++ ".msg")

unfoldable pub inbox_subject : Names → Address → String → String
inbox_subject n to from_node =
    msg_prefix n ++ ("." ++ (to.node ++ ("." ++ (to.agent ++ ("." ++ from_node)))))

unfoldable pub inbox_filter : Names → Address → String
inbox_filter n agent = msg_prefix n ++ ("." ++ (agent.node ++ ("." ++ (agent.agent ++ ".*"))))

unfoldable pub consumer : Address → String
consumer agent = "inbox_" ++ (agent.node ++ ("_" ++ agent.agent))

-- subject.rsplit(".", 1)[-1]: what stands behind the last dot.
unfoldable pub sender_node_from_subject : String → String
sender_node_from_subject subject = last_or (split b'.' subject) subject

unfoldable pub task_key : Address → String → String
task_key owner task_id = owner.node ++ ("." ++ (owner.agent ++ ("." ++ task_id)))

-- The loop of `_subject_match` over the tokens of the pattern; the subject's tokens that the loop
-- has passed are dropped, so that `len(s) > i` reads "some are left".
unfoldable pub match_tokens : List String → List String → Bool
match_tokens [] [] = true
match_tokens [] (_ ∷ _) = false
match_tokens (t ∷ p) [] = false
match_tokens (t ∷ p) (x ∷ s) =
    if t == ">" then true else (if not (t == "*") && not (t == x) then false else match_tokens p s)

unfoldable pub subject_match : String → String → Bool
unfolding match_tokens
subject_match pattern subject = match_tokens (split b'.' pattern) (split b'.' subject)

pub record Permissions : Type 0 where
  pub publish : List String
  pub subscribe : List String

unfoldable pub node_permissions : String → String → Permissions
node_permissions p node = record {
  publish =
      ("mm." ++ (p ++ (".msg.*.*." ++ node)))
      ∷ ("$KV.mm_" ++ (p ++ ("_agents." ++ (node ++ ".>"))))
      ∷ ("$KV.mm_" ++ (p ++ ("_nodes." ++ node)))
      ∷ ("$KV.mm_" ++ (p ++ ("_tasks." ++ (node ++ ".>"))))
      ∷ ("$O.mm_" ++ (p ++ "_artifacts.>"))
      ∷ "$JS.API.>"
      ∷ "$JS.ACK.>"
      ∷ "$JS.FC.>"
      ∷ "_INBOX.>"
      ∷ [];
  subscribe = "_INBOX.>" ∷ [];
}

-- Whether the publish permissions of a node admit a subject, by the wildcards of `_subject_match`.
unfoldable pub may_publish : String → String → String → Bool
may_publish project node subject =
    any (λ p. subject_match p subject) (node_permissions project node).publish
