-- ===== src/Worktree.antt =====
-- The private checkout of a code task (src/mutmuas/worktree.py). What git answers to a command may depend
-- on all commands before it.
use Prim.Native.String.{◌++◌ as ◌⧺◌}
use mutmuas.Prelude.{
  ℕ, zero, suc, String, Bool, true, false, not, Option, none, some, List, [], ◌∷◌, ◌++◌, any,
  select, ◌==◌, if◌then◌else◌, strip, is_nil, split_lines,
}
use mutmuas.Result.{Result, ok, err, git_error}
use mutmuas.Exec.{Exec, ◌>>=◌, ◌>>◌, gets, pure, modify, raise}
pub mod Guarded

-- The repository, the directory above it, and the clone of a task.
pub data Place : Type 0 where
  repository above clone : Place

pub record Answer : Type 0 where
  pub returncode : ℕ
  pub out : String

abbrev pub Command : Type 0
Command = Place × List String

-- The commands so far, and the clones that are there.
pub record Disk : Type 0 where
  pub commands : List Command
  pub clones : List String

abbrev pub Git : Type 0
Git = List Command → Answer

abbrev pub answered : Answer → Exec Disk String
answered a = elim a.returncode [ zero ↦ pure (strip a.out) | suc _ ↦ raise git_error ]

-- `git`
unfoldable pub git : Git → Place → List String → Exec Disk String
unfolding strip
git run place args = do
  before ← gets (λ (d : Disk). d.commands)
  modify (λ (d : Disk). record d { commands = before ++ ((place, args) ∷ []) })
  answered (run (before ++ ((place, args) ∷ [])))

-- SAFE, in front of a command
abbrev pub safe : List String → List String
safe args = "-c" ∷ "core.hooksPath=/dev/null" ∷ "-c" ∷ "core.fsmonitor=false" ∷ args

pub record Tree : Type 0 where
  pub repo : String
  pub path : String
  pub branch : String
  pub base : String

abbrev pub branch_of : String → String → String → String
branch_of node agent task_id = "mm/" ⧺ node ⧺ "-" ⧺ agent ⧺ "/" ⧺ task_id

abbrev pub path_of : String → String → String → String → String
path_of parent node agent task_id = parent ⧺ "/worktrees/" ⧺ node ⧺ "-" ⧺ agent ⧺ "-" ⧺ task_id

abbrev pub cloned : Git → Tree → Exec Disk Tree
cloned run t = do
  git run above ("clone" ∷ "--quiet" ∷ "--shared" ∷ "--no-checkout" ∷ t.repo ∷ t.path ∷ [])
  modify (λ (d : Disk). record d { clones = t.path ∷ d.clones })
  git run clone (safe ("checkout" ∷ "--quiet" ∷ "-b" ∷ t.branch ∷ t.base ∷ []))
  pure t

-- A clone that is there is taken as it is.
abbrev pub clone_unless : Git → Tree → Bool → Exec Disk Tree
clone_unless run t true = pure t
clone_unless run t false = cloned run t

-- `Worktree.create`
unfoldable pub create : Git → (repo parent node agent task_id base_ref : String) → Exec Disk Tree
create run repo parent node agent task_id base_ref = do
  base ← git run repository ("rev-parse" ∷ base_ref ∷ [])
  let t : Tree = record {
    repo = repo;
    path = path_of parent node agent task_id;
    branch = branch_of node agent task_id;
    base = base;
  }
  there ← gets (λ (d : Disk). any (λ p. p == t.path) d.clones)
  clone_unless run t there

pub record Summary : Type 0 where
  pub branch : String
  pub base : String
  pub head : String
  pub commits : List String
  pub uncommitted_changes : Bool
  pub worktree : String

-- `Worktree.summary`
unfoldable pub summary : Git → Tree → Exec Disk Summary
unfolding split_lines
summary run t = do
  head ← git run clone (safe ("rev-parse" ∷ "HEAD" ∷ []))
  log ← git run clone (safe ("log" ∷ "--format=%h %s" ∷ (t.base ⧺ "..HEAD") ∷ []))
  dirty ← git run clone (safe ("status" ∷ "--porcelain" ∷ []))
  pure (record {
    branch = t.branch;
    base = t.base;
    head = head;
    commits = select (λ line. not (is_nil line)) (split_lines log);
    uncommitted_changes = not (is_nil dirty);
    worktree = t.path;
  })

abbrev pub patch_unless : Git → Tree → Bool → Exec Disk (Option String)
patch_unless run t true = pure none
patch_unless run t false = do
  text ← git run clone (safe ("format-patch" ∷ "--stdout" ∷ (t.base ⧺ "..HEAD") ∷ []))
  pure (some (text ⧺ "\n"))

-- `Worktree.write_patch`: the text that it writes, if there are commits.
unfoldable pub write_patch : Git → Tree → Exec Disk (Option String)
write_patch run t = do
  log ← git run clone (safe ("log" ∷ "--format=%h" ∷ (t.base ⧺ "..HEAD") ∷ []))
  patch_unless run t (is_nil log)

-- `Worktree.import_branch`
unfoldable pub import_branch : Git → Tree → Exec Disk (Unit {0})
import_branch run t = do
  let ref = "refs/heads/" ⧺ t.branch
  git run repository
      (safe ("fetch" ∷ "--quiet" ∷ "--no-tags" ∷ t.path ∷ ("+" ⧺ ref ⧺ ":" ⧺ ref) ∷ []))
  pure tt
