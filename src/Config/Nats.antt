-- ===== src/Config/Nats.antt =====
-- How the connection's secrets are found (src/mutmuas/config.py: NatsConfig). The environment is a
-- function from a key to its text, if there is one.
use mutmuas.Prelude.{String, Option, none, some, List, ◌==◌, if◌then◌else◌}
use mutmuas.Result.{Result, ok, ◌>>=◌}
use mutmuas.Config.EnvFile.{lookup, read_env_file}

pub record NatsConfig : Type 0 where
  pub servers : List String
  pub user : Option String
  pub password : Option String
  pub password_env : Option String
  pub token : Option String
  pub token_env : Option String
  pub credentials_file : Option String
  pub tls_ca : Option String
  pub tls_cert : Option String
  pub tls_key : Option String

-- a or b, for texts that may be missing
abbrev pub text_or : Option String → Option String → Option String
text_or none b = b
text_or (some s) b = if s == "" then b else some s

-- An optional look-up: none for a missing or an empty name.
abbrev looked_up : (String → Option String) → Option String → Option String
looked_up env none = none
looked_up env (some name) = if name == "" then none else env name

abbrev pub with_credentials : List (String × String) → NatsConfig → NatsConfig
with_credentials creds c = record c {
  user = text_or c.user (lookup "MUTMUAS_NATS_USER" creds);
  password = text_or c.password (lookup "MUTMUAS_NATS_PASSWORD" creds);
}

-- `__post_init__`, over the texts of the files: what the configuration says wins over the credentials file.
unfoldable pub post_init : (String → Option String) → NatsConfig → Result NatsConfig
unfolding read_env_file
post_init files c = elim (text_or c.credentials_file none) [
  | none ↦ ok c
  | some path ↦ read_env_file (files path) >>= (λ creds. ok (with_credentials creds c))
]

unfoldable pub resolved_password : (String → Option String) → NatsConfig → Option String
resolved_password env c = text_or c.password (looked_up env c.password_env)

unfoldable pub resolved_token : (String → Option String) → NatsConfig → Option String
resolved_token env c = text_or c.token (looked_up env c.token_env)
