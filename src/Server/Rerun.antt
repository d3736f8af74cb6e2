-- ===== src/Server/Rerun.antt =====
-- A second run of `generate` (src/mutmuas/server_config.py).
use text.Mathlib.TextLemmas.{append_cancel_right}
use mutmuas.Prelude.{
  String, ◌≡◌, ◌≢◌, ◌⊎◌, refl, sym, Bool, true, false, ◌||◌, arith, Option, some, List, [], ◌∷◌,
  any, All, ◌==◌, eq_iff, eq_refl, Bool-cases, inl, inr,
}
use mutmuas.Result.{ok, >>=-eq-ok}
use mutmuas.Config.EnvFile.{lookup, assign}
use mutmuas.Server.{TlsFiles, ServerOptions, render, existing_password, env_text}
use mutmuas.Server.Files.{
  env_file, or_fresh, password_for, passwords_from, user_of, write_env_files, generate,
}
use mutmuas.Server.Credentials.{IsSecret, find_password-env_text}

lookup-assign : (k v : String) (l : List (String × String)) → lookup k (assign k v l) ≡ some v
lookup-assign k v [] = rw eq_refl refl
lookup-assign k v ((m, w) ∷ rest) = elim (Bool-cases (m == k)) [
  | inl e ↦ rw (e, e) refl
  | inr e ↦ rw (e, e, lookup-assign k v rest) refl
]

lookup-assign_other :
    (k m v : String) (l : List (String × String))
    → (m == k) ≡ false
    → lookup k (assign m v l) ≡ lookup k l
lookup-assign_other k m v [] h = rw h refl
lookup-assign_other k m v ((n, w) ∷ rest) h = elim (Bool-cases (n == m)) [
  | inl e ↦ let same : (n == k) ≡ false = rw ((eq_iff n m).0 e) h in rw (e, same) refl
  | inr e ↦ rw e (ground (arith, lookup-assign_other k m v rest h))
]

abbrev is_for : String → String × String → Bool
is_for n e = e.0 == n

-- Whatever stands under the name is the value.
abbrev IsOnly : String → String → String × String → Type 0
IsOnly n p e = (e.0 == n) ≡ true → e.1 ≡ p

assign-IsOnly :
    (n p k v : String) (d : List (String × String))
    → IsOnly n p (k, v)
    → All (IsOnly n p) d
    → All (IsOnly n p) (assign k v d)
assign-IsOnly n p k v [] h hs = (h, tt)
assign-IsOnly n p k v ((l, w) ∷ rest) h (hl, hs) = elim (Bool-cases (l == k)) [
  | inl e ↦ rw e (rw ((eq_iff l k).0 e) h, hs)
  | inr e ↦ rw e (hl, assign-IsOnly n p k v rest h hs)
]

any-assign :
    (n k v : String) (d : List (String × String))
    → any (is_for n) (assign k v d) ≡ ((k == n) || any (is_for n) d)
any-assign n k v [] = ground arith
any-assign n k v ((l, w) ∷ rest) = elim (Bool-cases (l == k)) [
  | inl e ↦ rw ((eq_iff l k).0 e, eq_refl k) (ground arith)
  | inr e ↦ rw e (ground (arith, any-assign n k v rest))
]

passwords_from-IsOnly :
    (files : List (String × String)) (fresh : String → String) (n : String) (nodes : List String)
    (out : List (String × String))
    → All (IsOnly n (password_for files fresh n)) out
    → All (IsOnly n (password_for files fresh n)) (passwords_from files fresh nodes out)
unfolding passwords_from
passwords_from-IsOnly files fresh n [] out h = h
passwords_from-IsOnly files fresh n (m ∷ rest) out h =
    passwords_from-IsOnly files fresh n rest _
      (assign-IsOnly n _ m _ out (λ e. rw ((eq_iff m n).0 e) refl) h)

any-passwords_from :
    (files : List (String × String)) (fresh : String → String) (n : String) (nodes : List String)
    (out : List (String × String))
    → any (is_for n) (passwords_from files fresh nodes out)
      ≡ (any (λ m. m == n) nodes || any (is_for n) out)
unfolding passwords_from
any-passwords_from files fresh n [] out = refl
any-passwords_from files fresh n (m ∷ rest) out =
    rw (any-passwords_from files fresh n rest _, any-assign n m _ out) (ground arith)

env_file_inj : (m n : String) → (m == n) ≡ false → (env_file m == env_file n) ≡ false
env_file_inj m n h = elim (Bool-cases (env_file m == env_file n)) [
  | inl e ↦
      let same = append_cancel_right m n ".env" ((eq_iff _ _).0 e) in
      absurd (ground (arith, (eq_iff m n).1 same))
  | inr e ↦ e
]

write_env_files-writes :
    (n p : String) (d files : List (String × String))
    → All (IsOnly n p) d
    → (any (is_for n) d ≡ true) ⊎ (lookup (env_file n) files ≡ some (env_text (user_of n) p))
    → lookup (env_file n) (write_env_files d files) ≡ some (env_text (user_of n) p)
unfolding write_env_files
write_env_files-writes n p [] files h w = ground arith
write_env_files-writes n p ((m, v) ∷ rest) files (hm, hs) w = elim (Bool-cases (m == n)) [
  | inl e ↦
      let same = (eq_iff m n).0 e in
      write_env_files-writes n p rest _ hs
        (inr (rw (same, hm e) (lookup-assign (env_file n) (env_text (user_of n) p) files)))
  | inr e ↦
      let other =
        lookup-assign_other (env_file n) (env_file m) (env_text (user_of m) v) files
          (env_file_inj m n e) in
      write_env_files-writes n p rest _ hs
        (elim w [ inl a ↦ inl (ground arith) | inr l ↦ inr (rw other l) ])
]

or_fresh-some : (p fresh : String) → p ≢ "" → or_fresh (some p) fresh ≡ p
or_fresh-some p fresh h = ground (arith, eq_iff p "")

-- A node that was configured keeps its password in a later run, whatever nodes that run adds and whatever
-- it draws, if the password and the name hold no spaces and the node is not called "admin".
pub password_kept :
    (project : String) (nodes : List String) (tls : Option TlsFiles) (o : ServerOptions)
    (fresh later : String → String) (admin n : String) (files files' : List (String × String))
    → generate project nodes tls o fresh admin files ≡ ok files'
    → any (λ m. m == n) nodes ≡ true
    → n ≢ "admin"
    → IsSecret (user_of n)
    → IsSecret (password_for files fresh n)
    → password_for files fresh n ≢ ""
    → password_for files' later n ≡ password_for files fresh n
unfolding generate
password_kept project nodes tls o fresh later admin n files files' g i a u s e =
    let p = password_for files fresh n in
    let found = passwords_from files fresh nodes [] in
    let boss = or_fresh (existing_password (lookup (env_file "admin") files)) admin in
    let (conf, made, rest) = >>=-eq-ok (render project nodes found boss tls o) _ g in
    let only : All (IsOnly n p) (assign "admin" boss found) =
      assign-IsOnly n p "admin" boss found (λ t. absurd (a (sym ((eq_iff "admin" n).0 t))))
        (passwords_from-IsOnly files fresh n nodes [] tt) in
    let listed : any (is_for n) (assign "admin" boss found) ≡ true =
      rw (any-assign n "admin" boss found, any-passwords_from files fresh n nodes [], i)
        (ground arith) in
    let start = assign "nats-server.conf" conf files in
    let written = write_env_files-writes n p (assign "admin" boss found) start only (inl listed) in
    let same : write_env_files (assign "admin" boss found) start ≡ files' = cc in
    let read : existing_password (lookup (env_file n) files') ≡ some p =
      rw (← same, written) (find_password-env_text (user_of n) p u s) in
    rw (password_for, read) (or_fresh-some p (later n) e)
