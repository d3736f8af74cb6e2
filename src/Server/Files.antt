-- ===== src/Server/Files.antt =====
-- `generate` (src/mutmuas/server_config.py), over the texts of the files in its directory.
use Prim.Native.String.{◌++◌ as ◌⧺◌}
use mutmuas.Prelude.{String, Option, none, some, List, [], ◌∷◌, ◌==◌, if◌then◌else◌}
use mutmuas.Result.{Result, ok, ◌>>=◌}
use mutmuas.Config.EnvFile.{lookup, assign}
use mutmuas.Server.{TlsFiles, ServerOptions, render, existing_password, env_text}

abbrev pub env_file : String → String
env_file node = node ⧺ ".env"

-- _existing_password(...) or secrets.token_urlsafe(24)
abbrev pub or_fresh : Option String → String → String
or_fresh none fresh = fresh
or_fresh (some p) fresh = if p == "" then fresh else p

abbrev pub password_for : List (String × String) → (String → String) → String → String
password_for files fresh node =
    or_fresh (existing_password (lookup (env_file node) files)) (fresh node)

-- The passwords of the nodes, one for each name.
unfoldable pub passwords_from :
    List (String × String)
    → (String → String)
    → List String
    → List (String × String)
    → List (String × String)
unfolding existing_password
passwords_from files fresh [] out = out
passwords_from files fresh (n ∷ rest) out =
    passwords_from files fresh rest (assign n (password_for files fresh n) out)

abbrev pub user_of : String → String
user_of node = if node == "admin" then "admin" else "node_" ⧺ node

-- The loop that writes the credentials files.
unfoldable pub write_env_files :
    List (String × String) → List (String × String) → List (String × String)
unfolding env_text
write_env_files [] files = files
write_env_files ((node, pw) ∷ rest) files =
    write_env_files rest (assign (env_file node) (env_text (user_of node) pw) files)

-- `generate`: the files of the directory after it. `fresh` are new random passwords, the administrator's
-- under its name; the files of TLS are made before.
unfoldable pub generate :
    String
    → List String
    → Option TlsFiles
    → ServerOptions
    → (String → String)
    → String
    → List (String × String)
    → Result (List (String × String))
unfolding passwords_from existing_password render write_env_files
generate project nodes tls o fresh fresh_admin files = do
  let passwords = passwords_from files fresh nodes []
  let admin = or_fresh (existing_password (lookup (env_file "admin") files)) fresh_admin
  conf ← render project nodes passwords admin tls o
  ok (write_env_files (assign "admin" admin passwords) (assign "nats-server.conf" conf files))
