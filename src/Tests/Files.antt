-- ===== src/Tests/Files.antt =====
-- A small disk and its artifacts.
use mutmuas.Prelude.{ℕ, String, ◌≡◌, refl, true, none, some, List, [], ◌∷◌, arith}
use mutmuas.Result.{ok, err, artifact_unavailable}
use mutmuas.Json.{null, str}
use mutmuas.Bus.Split.{split}
use mutmuas.Protocol.Envelope.{ArtifactRef}
use mutmuas.Artifacts.{
  Entry, file, folder, Space, Platform, ArtifactStore, Download, refused, entry, safe_key,
  key_parts, under, base_name, write_file,
}
use mutmuas.Artifacts.Url.{
  urlparse, trimmed, without_breaks, located, span, all_scheme, scheme_is, cut_params, has_slash,
  without_params,
}
use mutmuas.Ids.{partition}
use mutmuas.Artifacts.Publish.{publish, publish_object}
use mutmuas.Artifacts.Fetch.{fetch, obtain, fetch_object, save_object, check_digest, extract}
use mutmuas.Artifacts.Checksum.{Obtained, fetch_checked}
use mutmuas.Artifacts.RoundTrip.{fetch-publish}

-- The digest of a text tells only whether it is empty.
abbrev digest : List ℕ → String
digest [] = "empty"
digest (_ ∷ _) = "filled"

abbrev platform : Platform
platform = record {
  sha256 = digest;
  guess = λ name. none;
  pack = λ name members. [];
  unpack = λ bytes. ok [];
  real = λ path. path;
  download = λ uri. refused;
}

abbrev store : ArtifactStore
store = record { has_bus = true; project = "demo"; node = "A"; max_bytes = 10 }

abbrev space : Space
space = record { disk = ("/data/a.csv", file (1 ∷ 2 ∷ [])) ∷ []; objects = [] }

abbrev reference : ArtifactRef
reference = record {
  uri = "file://A/data/a.csv";
  id = str "a.csv";
  size = null;
  sha256 = str "filled";
  media_type = null;
  description = str "";
}

abbrev fetched : Space
fetched = record {
  disk =
      ("/data/a.csv", file (1 ∷ 2 ∷ []))
      ∷ ("/out", folder)
      ∷ ("/out/a.csv", file (1 ∷ 2 ∷ []))
      ∷ [];
  objects = [];
}

fetch_runs : fetch store platform reference "/out" space ≡ (ok "/out/a.csv", fetched)
unfolding fetch obtain check_digest extract urlparse trimmed without_breaks located span all_scheme
    scheme_is partition mutmuas.Artifacts.Fetch.fetch_file write_file under base_name split
fetch_runs = refl

fetch_checked_example : Obtained store platform reference "/out" "filled" space "/out/a.csv" fetched
fetch_checked_example =
    fetch_checked store platform reference "/out" "/out/a.csv" "filled" space fetched fetch_runs
      refl (λ e. cc)

safe_own : safe_key "A/db/a.csv" ≡ ok "A/db/a.csv"
unfolding safe_key key_parts split
safe_own = refl

target : under "/out" (base_name "A/db/a.csv") ≡ "/out/a.csv"
unfolding under base_name split
target = refl

fetch-publish_example :
    (ref : ArtifactRef) × (u t : Space) × (publish store platform "/data/a.csv" "A/db/a.csv" ""
        "rows" "object" space
      ≡ (ok ref, u))
    × (fetch store platform ref "/out" u ≡ (ok (under "/out" (base_name "A/db/a.csv")), t))
    × (entry (under "/out" (base_name "A/db/a.csv")) t ≡ some (file (1 ∷ 2 ∷ [])))
unfolding under base_name split
fetch-publish_example =
    fetch-publish store platform "/data/a.csv" "A/db/a.csv" "A/db/a.csv" "" "rows" "/out"
      (1 ∷ 2 ∷ []) space refl refl refl safe_own (ground arith) (ground arith) refl refl
      (record { usable = refl; open_ = refl })

-- A key with a number sign is published, and its URI then names another key.
hash_lost :
    (r : ArtifactRef) × (u : Space) × (publish store platform "/data/a.csv" "runs/a#1.csv" "" ""
        "object" space
      ≡ (ok r, u))
    × ((fetch store platform r "/out" u).0 ≡ err artifact_unavailable)
unfolding publish publish_object safe_key key_parts split fetch obtain check_digest extract urlparse
    trimmed without_breaks located span all_scheme scheme_is partition fetch_object under base_name
hash_lost = (_, _, refl, refl)

parameters_cut : (urlparse "HTTP://host/a;b/c;v=1").path ≡ "/a;b/c"
unfolding urlparse trimmed without_breaks located span all_scheme scheme_is cut_params has_slash
    without_params partition
parameters_cut = refl
