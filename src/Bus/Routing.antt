-- ===== src/Bus/Routing.antt =====
-- The tokens of the subjects that src/mutmuas/bus.py builds (Names), and of a mailbox's filter.
use Prim.Native.String.{◌++◌}
use text.Mathlib.TextLemmas.{nil-append, cons-append, append_assoc}
use mathlib.Core.Path.{subst}
use mathlib.Core.Bool.{false≢true}
use mutmuas.Prelude.{
  String, ◌≡◌, refl, ap, ◌∙◌, true, false, ◌&&◌, List, [], ◌∷◌, inl, inr, Bool-cases, arith, ◌==◌,
  eq_iff, eq_refl,
}
use mutmuas.Ids.{Address, matches_from, token_char}
use mutmuas.Ids.RoundTrip.{Lacks, token-Lacks-dot}
use mutmuas.Bus.Split.{split, split-append, split-Lacks}
use mutmuas.Bus.{
  Names, msg_prefix, inbox_subject, inbox_filter, sender_node_from_subject, match_tokens,
  subject_match,
}

abbrev pub IsToken : String → Type 0
IsToken s = matches_from 0 s ≡ true

pub record AreTokens (a : Address) : Type 0 where
  pub node : IsToken a.node
  pub agent : IsToken a.agent

pub dot_append : (t : String) → "." ++ t ≡ String.◌∷◌ "." t
dot_append t = rw (cons-append, nil-append)

-- A part without dots, then a dot.
pub split-dot : (s t : String) → Lacks b'.' s → split b'.' (s ++ ("." ++ t)) ≡ s ∷ split b'.' t
split-dot s t h = rw dot_append (split-append "." s t h)

-- A literal that ends in a dot, in front of a text.
pub split-literal : (s t : String) → Lacks b'.' s → split b'.' ((s ++ ".") ++ t) ≡ s ∷ split b'.' t
split-literal s t lacks = rw append_assoc (split-dot s t lacks)

-- "mm.<project>." and a text
pub split-project :
    (project t : String)
    → IsToken project
    → split b'.' ("mm." ++ (project ++ ("." ++ t))) ≡ "mm" ∷ project ∷ split b'.' t
split-project project t h =
    split-literal "mm" (project ++ ("." ++ t)) (refl, (refl, tt))
    ∙ ap (λ (l : List String). "mm" ∷ l) (split-dot project t (token-Lacks-dot project h))

regroup : (a project b t : String) → (a ++ (project ++ b)) ++ t ≡ a ++ (project ++ (b ++ t))
regroup a project b t = simp append_assoc

module _ (n : Names) (to : Address) (hp : IsToken n.project) (ht : AreTokens to) where
  -- the tokens of the address, and what follows them
  split-address :
      (t : String)
      → split b'.' (msg_prefix n ++ ("." ++ (to.node ++ ("." ++ (to.agent ++ ("." ++ t))))))
        ≡ "mm" ∷ n.project ∷ "msg" ∷ to.node ∷ to.agent ∷ split b'.' t
  split-address t =
      rw (regroup "mm." n.project ".msg" ("." ++ (to.node ++ ("." ++ (to.agent ++ ("." ++ t)))))) (
        rw (append_assoc "." "msg" ("." ++ (to.node ++ ("." ++ (to.agent ++ ("." ++ t)))))) (
          rw (
            split-project n.project _ hp,
            split-dot "msg" _ (refl, (refl, (refl, tt))),
            split-dot to.node _ (token-Lacks-dot to.node ht.node),
            split-dot to.agent _ (token-Lacks-dot to.agent ht.agent),
          )))

  pub split-inbox_subject :
      (from : String)
      → IsToken from
      → split b'.' (inbox_subject n to from)
        ≡ "mm" ∷ n.project ∷ "msg" ∷ to.node ∷ to.agent ∷ from ∷ []
  unfolding inbox_subject
  split-inbox_subject from hf = rw (split-address, split-Lacks b'.' from (token-Lacks-dot from hf))

  -- Where all names are tokens, the receiver reads back the node that the subject was made with.
  pub sender_node-inbox_subject :
      (from : String) → IsToken from → sender_node_from_subject (inbox_subject n to from) ≡ from
  unfolding sender_node_from_subject
  sender_node-inbox_subject from hf = rw (split-inbox_subject from hf)

  -- The filter of an agent's mailbox.
  split-inbox_filter :
      split b'.' (inbox_filter n to) ≡ "mm" ∷ n.project ∷ "msg" ∷ to.node ∷ to.agent ∷ "*" ∷ []
  unfolding inbox_filter split
  split-inbox_filter = split-address "*"

module _ (s : String) (h : IsToken s) where
  pub not-any : (s == "*") ≡ false
  unfolding matches_from token_char
  not-any = elim (Bool-cases (s == "*")) [
    | inl e ↦ absurd (false≢true (subst IsToken ((eq_iff s "*").0 e) h))
    | inr e ↦ e
  ]

  pub not-rest : (s == ">") ≡ false
  unfolding matches_from token_char
  not-rest = elim (Bool-cases (s == ">")) [
    | inl e ↦ absurd (false≢true (subst IsToken ((eq_iff s ">").0 e) h))
    | inr e ↦ e
  ]

-- One token of a pattern that is a token stands for itself.
pub match-token :
    (t x : String) (p s : List String)
    → IsToken t
    → match_tokens (t ∷ p) (x ∷ s) ≡ (t == x && match_tokens p s)
unfolding match_tokens
match-token t x p s h = rw (not-rest t h, not-any t h) (ground arith)

-- Where all names are tokens, a mailbox's filter takes exactly the messages to that agent, whoever
-- sends them.
pub inbox_filter-inbox_subject :
    (n : Names) (agent to : Address) (from : String)
    → IsToken n.project
    → AreTokens agent
    → AreTokens to
    → IsToken from
    → subject_match (inbox_filter n agent) (inbox_subject n to from)
      ≡ (agent.node == to.node && agent.agent == to.agent)
unfolding subject_match
inbox_filter-inbox_subject n agent to from hp ha ht hf =
    rw (split-inbox_filter n agent hp ha, split-inbox_subject n to hp ht from hf)
      (ground (
        arith,
        not-rest n.project hp,
        not-any n.project hp,
        eq_refl n.project,
        not-rest agent.node ha.node,
        not-any agent.node ha.node,
        not-rest agent.agent ha.agent,
        not-any agent.agent ha.agent,
      ))
