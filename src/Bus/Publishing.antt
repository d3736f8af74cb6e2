-- ===== src/Bus/Publishing.antt =====
-- `node_permissions` of src/mutmuas/server_config.py against the subjects of bus.py.
use Prim.Native.String.{◌++◌}
use text.Mathlib.TextLemmas.{append_assoc}
use mutmuas.Prelude.{String, ◌≡◌, refl, false, List, [], ◌∷◌, arith, ◌==◌, eq_refl}
use mutmuas.Ids.{Address}
use mutmuas.Ids.RoundTrip.{Lacks, token-Lacks-dot}
use mutmuas.Bus.Split.{split, split-Lacks}
use mutmuas.Bus.Routing.{
  IsToken, AreTokens, split-literal, split-project, split-inbox_subject, not-any, not-rest,
}
use mutmuas.Bus.{inbox_subject, node_permissions, match_tokens, subject_match, may_publish}

-- A pattern whose first token is a literal other than `mm` admits no message.
module _ (t : String) (lacks : Lacks b'.' t) (a : (t == ">") ≡ false) (b : (t == "*") ≡ false)
    (c : (t == "mm") ≡ false) where
  other_subject :
      (rest : String) (s : List String)
      → match_tokens (split b'.' ((t ++ ".") ++ rest)) ("mm" ∷ s) ≡ false
  unfolding match_tokens
  other_subject rest s = rw (split-literal t rest lacks) (rw (a, b, c) refl)

kv_subject :
    (rest : String) (s : List String)
    → match_tokens (split b'.' ("$KV.mm_" ++ rest)) ("mm" ∷ s) ≡ false
kv_subject rest s =
    rw (append_assoc "$KV." "mm_" rest)
      (other_subject "$KV" (refl, (refl, (refl, tt))) refl refl refl ("mm_" ++ rest) s)

object_subject :
    (rest : String) (s : List String)
    → match_tokens (split b'.' ("$O.mm_" ++ rest)) ("mm" ∷ s) ≡ false
object_subject rest s =
    rw (append_assoc "$O." "mm_" rest)
      (other_subject "$O" (refl, (refl, tt)) refl refl refl ("mm_" ++ rest) s)

module _ (project node : String) (hp : IsToken project) (hn : IsToken node) where
  split-message_permission :
      split b'.' ("mm." ++ (project ++ (".msg.*.*." ++ node)))
      ≡ "mm" ∷ project ∷ "msg" ∷ "*" ∷ "*" ∷ node ∷ []
  split-message_permission = rw (append_assoc "." "msg.*.*." node) (
      rw (split-project project ("msg.*.*." ++ node) hp, append_assoc "msg." "*.*." node)
        (rw
          (
            split-literal "msg" ("*.*." ++ node) (refl, (refl, (refl, tt))),
            append_assoc "*." "*." node,
          )
          (rw (
            split-literal "*" ("*." ++ node) (refl, tt),
            split-literal "*" node (refl, tt),
            split-Lacks b'.' node (token-Lacks-dot node hn),
          ))))

  message_permission :
      (a b from : String)
      → match_tokens
          ("mm" ∷ project ∷ "msg" ∷ "*" ∷ "*" ∷ node ∷ [])
          ("mm" ∷ project ∷ "msg" ∷ a ∷ b ∷ from ∷ [])
        ≡ (node == from)
  unfolding match_tokens
  message_permission a b from = ground (
    arith,
    not-rest project hp,
    not-any project hp,
    eq_refl project,
    not-rest node hn,
    not-any node hn,
  )

  -- Where all names are tokens, the permissions of a node's user admit a message exactly when it is sent
  -- as that node.
  pub may_publish-inbox_subject :
      (to : Address) (from : String)
      → AreTokens to
      → IsToken from
      → may_publish project node (inbox_subject (record { project = project }) to from)
        ≡ (node == from)
  unfolding may_publish subject_match node_permissions split match_tokens
  may_publish-inbox_subject to from ht hf =
      rw (split-inbox_subject (record { project = project }) to hp ht from hf) (
        rw (split-message_permission, message_permission to.node to.agent from)
          (simp (kv_subject, object_subject) (ground arith)))
