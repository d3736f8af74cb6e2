-- ===== src/Worktree/Guarded.antt =====
-- The commands that the daemon runs in the clone of a task (src/mutmuas/worktree.py: SAFE).
use mutmuas.Prelude.{
  ◌≡◌, refl, String, Bool, true, false, none, List, [], ◌∷◌, ◌++◌, All, take, zero, suc, strip,
}
use mutmuas.Result.{Result, ok, err, git_error}
use mutmuas.Exec.{Exec, ◌>>=◌, continue, gets, pure, raise, modify}
use mutmuas.Worktree.{
  Place, repository, above, clone, Answer, Command, Disk, Git, answered, git, safe, answered, Tree,
  clone_unless, create, summary, patch_unless, write_patch, import_branch,
}

-- A command in the clone of a task runs no hook and no file system monitor of its configuration.
abbrev pub IsGuarded : Command → Type 0
IsGuarded (clone, args) = take 4 args ≡ safe []
IsGuarded (repository, args) = Unit
IsGuarded (above, args) = Unit

abbrev pub AreGuarded : Disk → Type 0
AreGuarded d = All IsGuarded d.commands

-- An action that keeps the commands guarded.
pub record Guards {A : Type 0} (m : Exec Disk A) : Type 0 where
  pub keeps : (d : Disk) → AreGuarded d → AreGuarded (m d).1

module _ {ℓ κ} {A : Type ℓ} (P : A → Type κ) where
  All-snoc : (xs : List A) (y : A) → All P xs → P y → All P (xs ++ (y ∷ []))
  All-snoc [] y h p = (p, tt)
  All-snoc (x ∷ xs) y (q, h) p = (q, All-snoc xs y h p)

module _ {A : Type 0} where
  Guards-pure : (a : A) → Guards (pure a)
  Guards-pure a = record { keeps = λ d h. h }

  Guards-gets : (f : Disk → A) → Guards (gets f)
  Guards-gets f = record { keeps = λ d h. h }

  continue-keeps :
      {B : Type 0} (r : Result A) (f : A → Exec Disk B) (d : Disk)
      → ((a : A) → Guards (f a))
      → AreGuarded d
      → AreGuarded (continue r f d).1
  continue-keeps (ok a) f d g h = (g a).keeps d h
  continue-keeps (err e) f d g h = h

  Guards-bind :
      {B : Type 0} (m : Exec Disk A) (f : A → Exec Disk B)
      → Guards m
      → ((a : A) → Guards (f a))
      → Guards (m >>= f)
  Guards-bind m f gm gf = record {
    keeps = λ d h. continue-keeps (m d).0 f (m d).1 gf (gm.keeps d h);
  }

Guards-clones : (f : Disk → List String) → Guards (modify (λ (d : Disk). record d { clones = f d }))
Guards-clones f = record { keeps = λ d h. h }

answered-disk : (a : Answer) (d : Disk) → (answered a d).1 ≡ d
answered-disk a d =
    elim a.returncode
      as (λ n.
        (elim n as (λ _. Exec Disk String) [ zero ↦ pure (strip a.out) | suc _ ↦ raise git_error ]
          d).1
        ≡ d) [ zero ↦ refl | suc n ↦ refl ]

Guards-git :
    (run : Git) (p : Place) (args : List String) → IsGuarded (p, args) → Guards (git run p args)
unfolding git
Guards-git run p args g = record {
  keeps = λ d h.
      let c = d.commands ++ ((p, args) ∷ []) in
      rw (answered-disk (run c) (record d { commands = c }))
        (All-snoc IsGuarded d.commands (p, args) h g);
}

ruleset guard_rules = (Guards-pure, Guards-gets, Guards-bind, Guards-clones, Guards-git)

clone_unless-Guards : (run : Git) (t : Tree) (b : Bool) → Guards (clone_unless run t b)
clone_unless-Guards run t true = Guards-pure t
clone_unless-Guards run t false = search (guard_rules) depth 20

create-Guards :
    (run : Git) (repo parent node agent task_id base_ref : String)
    → Guards (create run repo parent node agent task_id base_ref)
unfolding create
create-Guards run repo parent node agent task_id base_ref =
    search (guard_rules, clone_unless-Guards) depth 20

summary-Guards : (run : Git) (t : Tree) → Guards (summary run t)
unfolding summary
summary-Guards run t = search (guard_rules) depth 20

patch_unless-Guards : (run : Git) (t : Tree) (b : Bool) → Guards (patch_unless run t b)
patch_unless-Guards run t true = Guards-pure none
patch_unless-Guards run t false = search (guard_rules) depth 20

write_patch-Guards : (run : Git) (t : Tree) → Guards (write_patch run t)
unfolding write_patch
write_patch-Guards run t = search (guard_rules, patch_unless-Guards) depth 20

import_branch-Guards : (run : Git) (t : Tree) → Guards (import_branch run t)
unfolding import_branch
import_branch-Guards run t = search (guard_rules) depth 20

-- Whatever git answers, the operations of a checkout keep every command that runs in the clone of a task
-- without its hooks and its file system monitor, also where they fail.
pub clone_guarded :
    (run : Git) (repo parent node agent task_id base_ref : String) (t : Tree) (d : Disk)
    → AreGuarded d
    → AreGuarded (create run repo parent node agent task_id base_ref d).1
      × AreGuarded (summary run t d).1
      × AreGuarded (write_patch run t d).1
      × AreGuarded (import_branch run t d).1
clone_guarded run repo parent node agent task_id base_ref t d h = (
  (create-Guards run repo parent node agent task_id base_ref).keeps d h,
  (summary-Guards run t).keeps d h,
  (write_patch-Guards run t).keeps d h,
  (import_branch-Guards run t).keeps d h,
)
