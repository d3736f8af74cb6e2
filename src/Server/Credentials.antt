-- ===== src/Server/Credentials.antt =====
-- The credentials files that `generate` writes, as a second run and the nodes read them
-- (src/mutmuas/server_config.py: generate, _existing_password; config.py: read_env_file, NatsConfig).
use Prim.Native.String.{◌++◌}
use text.Mathlib.TextLemmas.{nil-append, cons-append, append_assoc}
use mutmuas.Prelude.{
  String, ◌≡◌, ◌≢◌, refl, false, arith, Option, none, some, List, [], ◌∷◌, eq_iff, Avoids,
  Avoids-append, Avoids-imp, is_space, is_break, no_space-no_break, split_lines, split_lines-append,
  strip, strip_left, strip_right, strip-Avoids, has_prefix, has_prefix-append, has_prefix-clash,
}
use mutmuas.Result.{ok}
use mutmuas.Ids.{partition}
use mutmuas.Ids.RoundTrip.{Lacks, partition-append}
use mutmuas.Config.EnvFile.{read_line, read_lines, read_env_file, assign}
use mutmuas.Config.Nats.{NatsConfig, text_or, post_init}
use mutmuas.Server.{env_text, find_password, existing_password, password_key}

abbrev title : String
title = "# credentials for "

abbrev remark : String
remark = "; copy to the node and keep it private"

abbrev user_key : String
user_key = "MUTMUAS_NATS_USER="

-- A newline in a literal begins the next line.
newline : (k x : String) → (String.◌∷◌ "\n" k) ++ x ≡ String.◌∷◌ "\n" (k ++ x)
newline k x = cons-append "\n" k x

-- The three lines of the file.
shape :
    (u p : String)
    → env_text u p
      ≡ (title ++ (u ++ remark))
        ++ (String.◌∷◌ "\n" (
            (user_key ++ u)
            ++ (String.◌∷◌ "\n" ((password_key ++ p) ++ (String.◌∷◌ "\n" String.[])))))
unfolding env_text
shape u p =
    let last = password_key ++ (p ++ "\n") in
    let middle = user_key ++ (u ++ (String.◌∷◌ "\n" last)) in
    cc (
      newline password_key (p ++ "\n"),
      newline user_key (u ++ (String.◌∷◌ "\n" last)),
      append_assoc remark (String.◌∷◌ "\n" user_key) (u ++ (String.◌∷◌ "\n" last)),
      append_assoc password_key p "\n",
      append_assoc user_key u (String.◌∷◌ "\n" last),
      append_assoc title (u ++ remark) (String.◌∷◌ "\n" middle),
      append_assoc u remark (String.◌∷◌ "\n" middle),
    )

-- A name or a password as they are made: no spaces, and a name without "=" either.
abbrev pub IsSecret : String → Type 0
IsSecret s = Avoids is_space s

clean : (s : String) → IsSecret s → Avoids is_break s
clean s h = Avoids-imp is_space is_break no_space-no_break s h

three_lines :
    (u p : String)
    → IsSecret u
    → IsSecret p
    → split_lines (env_text u p)
      ≡ (title ++ (u ++ remark)) ∷ (user_key ++ u) ∷ (password_key ++ p) ∷ []
three_lines u p h k =
    let first : Avoids is_break (title ++ (u ++ remark)) =
      Avoids-append is_break title _ (unfold is_break in ground arith)
        (Avoids-append is_break u remark (clean u h) (unfold is_break in ground arith)) in
    let second : Avoids is_break (user_key ++ u) =
      Avoids-append is_break user_key u (unfold is_break in ground arith) (clean u h) in
    let third : Avoids is_break (password_key ++ p) =
      Avoids-append is_break password_key p (unfold is_break in ground arith) (clean p k) in
    rw
      (
        shape,
        split_lines-append _ _ first,
        split_lines-append _ _ second,
        split_lines-append _ _ third,
      )
      (unfold split_lines in refl)

-- A key with its sign, and a value.
at_sign : (k v : String) → Lacks b'=' k → partition b'=' (k ++ (String.◌∷◌ "=" v)) ≡ some (k, v)
at_sign k v h = partition-append "=" k v h

user_part : (u : String) → partition b'=' (user_key ++ u) ≡ some ("MUTMUAS_NATS_USER", u)
user_part u =
    let e : "MUTMUAS_NATS_USER" ++ (String.◌∷◌ "=" u) ≡ user_key ++ u =
      cc (append_assoc "MUTMUAS_NATS_USER" "=" u, cons-append "=" "" u, nil-append u) in
    rw (← e) (at_sign "MUTMUAS_NATS_USER" u (ground arith))

password_part :
    (p : String) → partition b'=' (password_key ++ p) ≡ some ("MUTMUAS_NATS_PASSWORD", p)
password_part p =
    let e : "MUTMUAS_NATS_PASSWORD" ++ (String.◌∷◌ "=" p) ≡ password_key ++ p =
      cc (append_assoc "MUTMUAS_NATS_PASSWORD" "=" p, cons-append "=" "" p, nil-append p) in
    rw (← e) (at_sign "MUTMUAS_NATS_PASSWORD" p (ground arith))

pub find_password-env_text :
    (u p : String) → IsSecret u → IsSecret p → existing_password (some (env_text u p)) ≡ some p
unfolding existing_password find_password
find_password-env_text u p h k =
    rw
      (
        three_lines u p h k,
        has_prefix-clash password_key title (u ++ remark) refl,
        has_prefix-clash password_key user_key u refl,
        has_prefix-append password_key p,
        password_part p,
        strip-Avoids p k,
      )
      refl

remark_line : (x : String) (out : List (String × String)) → read_line (title ++ x) out ≡ out
unfolding read_line strip strip_left strip_right is_space
remark_line x out = rw (cons-append "#" " credentials for " x) refl

value_line :
    (line k v : String) (out : List (String × String))
    → Avoids is_space line
    → has_prefix "#" line ≡ false
    → partition b'=' line ≡ some (k, v)
    → Avoids is_space k
    → Avoids is_space v
    → read_line line out ≡ assign k v out
unfolding read_line
value_line line k v out h c e hk hv =
    rw (strip-Avoids line h, c, e, strip-Avoids k hk, strip-Avoids v hv) refl

-- What a node reads from the file.
abbrev pub pairs : String → String → List (String × String)
pairs u p = ("MUTMUAS_NATS_USER", u) ∷ ("MUTMUAS_NATS_PASSWORD", p) ∷ []

read_env_file-env_text :
    (u p : String) → IsSecret u → IsSecret p → read_env_file (some (env_text u p)) ≡ ok (pairs u p)
unfolding read_env_file read_lines
read_env_file-env_text u p h k =
    let user_clean : Avoids is_space (user_key ++ u) =
      Avoids-append is_space user_key u (unfold is_space in ground arith) h in
    let password_clean : Avoids is_space (password_key ++ p) =
      Avoids-append is_space password_key p (unfold is_space in ground arith) k in
    rw
      (
        three_lines u p h k,
        remark_line (u ++ remark) [],
        value_line (user_key ++ u) "MUTMUAS_NATS_USER" u [] user_clean
            (has_prefix-clash "#" user_key u refl) (user_part u) (unfold is_space in ground arith)
            h,
        value_line (password_key ++ p) "MUTMUAS_NATS_PASSWORD" p _ password_clean
            (has_prefix-clash "#" password_key p refl) (password_part p)
            (unfold is_space in ground arith) k,
      )
      refl

-- A credentials file, for a user and a password without spaces, is read alike by both readers: a second run
-- of the generator finds the password, and a node that names the file, and no user or password of its
-- own, connects as that user with that password.
pub credentials_agree :
    (u p path : String) (files : String → Option String) (c : NatsConfig)
    → IsSecret u
    → IsSecret p
    → files path ≡ some (env_text u p)
    → c.credentials_file ≡ some path
    → path ≢ ""
    → c.user ≡ none
    → c.password ≡ none
    → (existing_password (files path) ≡ some p)
      × (post_init files c ≡ ok (record c { user = some u; password = some p }))
unfolding post_init
credentials_agree u p path files c h k f e m cu cp =
    let named : text_or c.credentials_file none ≡ some path =
      rw e (ground (arith, eq_iff path "")) in
    let read : read_env_file (files path) ≡ ok (pairs u p) =
      rw f (read_env_file-env_text u p h k) in
    (rw f (find_password-env_text u p h k), rw (post_init, named, read, cu, cp) refl)
