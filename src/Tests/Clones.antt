-- ===== src/Tests/Clones.antt =====
-- A code task with one commit, and one that is resumed.
use mutmuas.Prelude.{◌≡◌, refl, some, [], strip, strip_left, strip_right, is_space}
use mutmuas.Result.{ok}
use mutmuas.Worktree.{Git, Disk, Tree, git, create, summary, write_patch, import_branch}
use mutmuas.Worktree.Guarded.{AreGuarded, clone_guarded}

abbrev answers : Git
answers commands = record { returncode = 0; out = "abc123\n" }

abbrev empty_disk : Disk
empty_disk = record { commands = []; clones = [] }

abbrev tree : Tree
tree = record {
  repo = "/src/lib";
  path = "/src/worktrees/A-db-task-1";
  branch = "mm/A-db/task-1";
  base = "abc123";
}

created : (create answers "/src/lib" "/src" "A" "db" "task-1" "HEAD" empty_disk).0 ≡ ok tree
unfolding create git strip strip_left strip_right is_space
created = refl

patched : (write_patch answers tree empty_disk).0 ≡ ok (some "abc123\n")
unfolding write_patch git strip strip_left strip_right is_space
patched = refl

clone_guarded_example :
    AreGuarded (create answers "/src/lib" "/src" "A" "db" "task-1" "HEAD" empty_disk).1
    × AreGuarded (summary answers tree empty_disk).1
    × AreGuarded (write_patch answers tree empty_disk).1
    × AreGuarded (import_branch answers tree empty_disk).1
clone_guarded_example =
    clone_guarded answers "/src/lib" "/src" "A" "db" "task-1" "HEAD" tree empty_disk tt
