-- ===== src/Tests/Setup.antt =====
-- The configuration that `init` writes, and one with a key that is unknown.
use mutmuas.Prelude.{◌≡◌, refl, false, some, none, List, [], ◌∷◌, map}
use mutmuas.Result.{Result, ok, err, config_error, type_error}
use mutmuas.Json.{Json, str, obj, end, field, get}
use mutmuas.Config.Load.{Paths, Parts, load, build, build_all, place_agents, rel}
use mutmuas.Cli.Setup.{InitArgs, init_data}

abbrev paths : Paths
paths = record { expanded = λ s. s; resolved = λ s. s }

abbrev args : InitArgs
args = record {
  project = "demo";
  node = "A";
  server = "nats://a:4222";
  description = none;
  data_dir = none;
  credentials = some "A.env";
  ca = none;
  force = false;
  bare = false;
}

abbrev ids : Result Parts → List Json
ids (ok q) = map (λ a. get a "id") q.agents
ids (err e) = []

init_loads :
    ids (load paths (some (obj (init_data args "/home" "/work")))) ≡ str "main" ∷ str "worker" ∷ []
unfolding load build build_all place_agents rel init_data
init_loads = refl

unknown_key :
    load paths (some (obj (field "project" (str "demo") (field "nodes" (str "A") end))))
    ≡ err config_error
unfolding load build build_all place_agents rel
unknown_key = refl

-- A missing name is no ConfigError.
without_node : load paths (some (obj (field "project" (str "demo") end))) ≡ err type_error
unfolding load build build_all place_agents rel
without_node = refl
