-- ===== src/Server.antt =====
-- The generated configuration of the server and the credentials of its users
-- (src/mutmuas/server_config.py: _perm_block, render, _existing_password, generate).
pub mod Files
pub mod Credentials
pub mod Rerun
use Prim.Native.String.{◌++◌ as ◌⧺◌}
use mutmuas.Prelude.{
  ℕ, String, Bool, true, false, Option, none, some, List, [], ◌∷◌, ◌++◌, map, ◌==◌, if◌then◌else◌,
  join, has_prefix, split_lines, strip, skip,
}
use mutmuas.Result.{Result, ok, err, key_error, ◌>>=◌, ◌>>◌}
use mutmuas.Ids.{check_token, partition}
use mutmuas.Bus.{Permissions, node_permissions}
use mutmuas.Config.EnvFile.{lookup, assign}

abbrev quoted : String → String
quoted s = "\"" ⧺ (s ⧺ "\"")

abbrev perm_line : String → String → List String → String
perm_line indent kind subjects =
    indent ⧺ ("  " ⧺ (kind ⧺ (": { allow: [" ⧺ (join ", " (map quoted subjects) ⧺ "] }"))))

-- `_perm_block`
unfoldable pub perm_block : Permissions → String → String
unfolding join
perm_block perms indent = join "\n" (
    (indent ⧺ "permissions: {")
    ∷ perm_line indent "publish" perms.publish
    ∷ perm_line indent "subscribe" perms.subscribe
    ∷ (indent ⧺ "}")
    ∷ [])

pub record ServerOptions : Type 0 where
  pub port : String
  pub monitor_port : String
  pub store_dir : String
  pub listen_host : String

-- The certificate and the key.
pub record TlsFiles : Type 0 where
  pub cert : String
  pub key : String

abbrev tls_block : Option TlsFiles → String
tls_block (some t) = join "\n" (
    ""
    ∷ "# TLS: every client connection is encrypted; nodes verify the server with ca.crt (tls_ca)."
    ∷ "tls {"
    ∷ ("  cert_file: \"" ⧺ (t.cert ⧺ "\""))
    ∷ ("  key_file:  \"" ⧺ (t.key ⧺ "\""))
    ∷ "  timeout: 5"
    ∷ "}"
    ∷ ""
    ∷ [])
tls_block none = join "\n" (
    "" ∷ "# TLS is off: only acceptable when the listen address is a private overlay"
    ∷ "# (Tailscale/WireGuard) or loopback. Re-run with --tls <public-ip-or-name> otherwise." ∷ ""
    ∷ [])

abbrev user_line : String → String → String → String
user_line project node password =
    "    { user: \"node_"
    ⧺ (node
        ⧺ ("\", password: \""
            ⧺ (password
                ⧺ ("\",\n" ⧺ (perm_block (node_permissions project node) "      " ⧺ " }")))))

-- passwords[node]
abbrev password_of : Option String → Result String
password_of none = err key_error
password_of (some p) = ok p

-- One user for every node, in the order of the nodes.
unfoldable pub users : String → List (String × String) → List String → Result (List String)
unfolding perm_block node_permissions check_token
users project passwords [] = ok []
users project passwords (node ∷ rest) = do
  check_token node
  password ← password_of (lookup node passwords)
  others ← users project passwords rest
  ok (user_line project node password ∷ others)

abbrev server_text : String → List String → Option TlsFiles → ServerOptions → String
server_text project lines tls o = join "\n" (
    ("# mutmuas NATS server config — generated for project \"" ⧺ (project ⧺ "\""))
    ∷ ("server_name: mutmuas-" ⧺ project)
    ∷ ("listen: " ⧺ (o.listen_host ⧺ (":" ⧺ o.port)))
    ∷ ("http: 127.0.0.1:" ⧺ (o.monitor_port ⧺ "          # monitoring, local only"))
    ∷ ""
    ∷ "jetstream {"
    ∷ ("  store_dir: \"" ⧺ (o.store_dir ⧺ "\""))
    ∷ "  max_file_store: 50G"
    ∷ "}"
    ∷ tls_block tls
    ∷ "authorization {"
    ∷ "  users: ["
    ∷ join ",\n" lines
    ∷ "  ]"
    ∷ "}"
    ∷ ""
    ∷ [])

-- `render`
unfoldable pub render :
    String
    → List String
    → List (String × String)
    → String
    → Option TlsFiles
    → ServerOptions
    → Result String
unfolding check_token users join
render project nodes passwords admin_password tls o = do
  check_token project
  lines ← users project passwords nodes
  let admin = "    { user: \"admin\", password: \"" ⧺ (admin_password ⧺ "\" }")
  ok (server_text project (admin ∷ lines) tls o)

abbrev pub password_key : String
password_key = "MUTMUAS_NATS_PASSWORD="

-- line.split("=", 1)[1].strip()
abbrev pub value_of : Option (String × String) → String
value_of none = ""
value_of (some (k, v)) = strip v

unfoldable pub find_password : List String → Option String
unfolding partition strip
find_password [] = none
find_password (l ∷ rest) =
    let later = find_password rest in
    if has_prefix password_key l then some (value_of (partition b'=' l)) else later

-- `_existing_password`, of the text of the file if there is one.
unfoldable pub existing_password : Option String → Option String
unfolding find_password split_lines
existing_password none = none
existing_password (some text) = find_password (split_lines text)

-- The text of a credentials file.
unfoldable pub env_text : String → String → String
env_text user password =
    "# credentials for "
    ⧺ (user
        ⧺ ("; copy to the node and keep it private\nMUTMUAS_NATS_USER="
            ⧺ (user ⧺ ("\nMUTMUAS_NATS_PASSWORD=" ⧺ (password ⧺ "\n")))))
