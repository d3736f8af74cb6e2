-- ===== src/Tests/Servers.antt =====
-- The files of a server with two nodes.
use mutmuas.Prelude.{String, ◌≡◌, refl, Option, none, some, List, [], ◌∷◌, arith, is_space}
use mutmuas.Result.{Result, ok}
use mutmuas.Config.EnvFile.{lookup}
use mutmuas.Config.Nats.{NatsConfig, post_init}
use mutmuas.Ids.{check_token, matches_from, token_char}
use mutmuas.Server.{ServerOptions, env_text, existing_password, render, users}
use mutmuas.Server.Files.{generate, password_for, write_env_files, passwords_from}
use mutmuas.Server.Credentials.{credentials_agree}
use mutmuas.Server.Rerun.{password_kept}

abbrev options : ServerOptions
options = record {
  port = "4222";
  monitor_port = "8222";
  store_dir = "/data/jetstream";
  listen_host = "0.0.0.0";
}

abbrev of_file : NatsConfig
of_file = record {
  servers = "nats://127.0.0.1:4222" ∷ [];
  user = none;
  password = none;
  password_env = none;
  token = none;
  token_env = none;
  credentials_file = some "B.env";
  tls_ca = none;
  tls_cert = none;
  tls_key = none;
}

abbrev files : String → Option String
files path = some (env_text "node_B" "s3-cret")

credentials_agree_example :
    (existing_password (files "B.env") ≡ some "s3-cret")
    × (post_init files of_file
        ≡ ok (record of_file { user = some "node_B"; password = some "s3-cret" }))
credentials_agree_example =
    credentials_agree "node_B" "s3-cret" "B.env" files of_file (unfold is_space in ground arith)
      (unfold is_space in ground arith) refl refl (λ e. cc) refl refl

abbrev drawn : String → String
drawn node = "s3-cret"

abbrev generated : Result (List (String × String))
generated = generate "demo" ("A" ∷ "B" ∷ []) none options drawn "adm1n" []

abbrev made : List (String × String)
made = elim generated [ ok l ↦ l | mutmuas.Result.err e ↦ [] ]

made_lem : generated ≡ ok made
unfolding generate render users check_token matches_from token_char passwords_from existing_password
made_lem = refl

password_kept_example : password_for made (λ node. "other") "B" ≡ password_for [] drawn "B"
unfolding existing_password
password_kept_example =
    password_kept "demo" ("A" ∷ "B" ∷ []) none options drawn (λ node. "other") "adm1n" "B" [] made
      made_lem refl (λ e. cc) (unfold is_space in ground arith) (unfold is_space in ground arith)
      (λ e. cc)

-- The credentials file of a node that is called "admin" is the administrator's.
abbrev sole : Result (List (String × String))
sole = generate "demo" ("admin" ∷ []) none options drawn "adm1n" []

boss_file :
    (l : List (String × String)) × (sole ≡ ok l)
    × (lookup "admin.env" l ≡ some (env_text "admin" "adm1n"))
unfolding generate render users check_token matches_from token_char passwords_from existing_password
    write_env_files
boss_file = (_, refl, refl)
