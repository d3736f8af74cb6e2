-- ===== src/Artifacts/Fetch.antt =====
-- `ArtifactStore.fetch` (src/mutmuas/artifacts.py: fetch, _fetch_object, _fetch_file, _extract).
use Prim.Native.String.{◌++◌ as ◌⧺◌}
use mutmuas.Prelude.{
  ℕ, String, Bool, true, false, not, ◌&&◌, ◌||◌, Option, none, some, List, [], ◌∷◌, ◌==◌,
  if◌then◌else◌, join, remove_prefix,
}
use mutmuas.Result.{Result, ok, err, artifact_error, artifact_unavailable, os_error, raise_if}
use mutmuas.Exec.{Exec, ◌>>=◌, ◌>>◌, gets, modify, pure, raise, lift}
use mutmuas.Json.{Json, str, truthy}
use mutmuas.Bus.Split.{split}
use mutmuas.Protocol.Envelope.{ArtifactRef}
use mutmuas.Artifacts.{
  Entry, file, folder, Object, Space, Download, refused, broken, whole, Platform, ArtifactStore,
  dir_media_type, entry, lookup, put_entry, unlink, write_file, under, base_name,
}
use mutmuas.Artifacts.Url.{urlparse, scheme_is}
use mutmuas.Artifacts.Publish.{members_of}

abbrev pub strip_slashes : String → String
strip_slashes String.[] = String.[]
strip_slashes (String.◌∷◌ c s) =
    if mutmuas.Prelude.nat_eq (Prim.Native.Char.code c) b'/'
    then strip_slashes s
    else String.◌∷◌ c s

abbrev pub archive_suffix : String
archive_suffix = ".mmdir.tar.gz"

abbrev pub is_dir_type : Option String → Bool
is_dir_type none = false
is_dir_type (some t) = t == dir_media_type

abbrev pub target_name : String → Object → String
target_name key o =
    if is_dir_type o.media_type then base_name key ⧺ archive_suffix else base_name key

-- expected and sha256_file(target) != expected
abbrev pub object_differs : Platform → Object → Bool
object_differs p o = elim o.digest [
  | none ↦ false
  | some d ↦ not (d == "") && not (p.sha256 o.content == d)
]

-- A file with the wrong digest is removed.
abbrev pub rejected : {A : Type 0} → String → Exec Space A
rejected path = do modify (unlink path); raise artifact_error

unfoldable pub save_object : Platform → String → Object → Exec Space String
unfolding write_file
save_object p target o = do
  write_file target o.content
  if object_differs p o then rejected target else pure target

abbrev found_object : Platform → String → String → Option Object → Exec Space String
found_object p key dest none = raise artifact_unavailable
found_object p key dest (some o) = save_object p (under dest (target_name key o)) o

-- `_fetch_object`
unfoldable pub fetch_object :
    ArtifactStore → Platform → String → String → String → Exec Space String
unfolding save_object under base_name
fetch_object store p project key dest = do
  lift (raise_if (not store.has_bus) artifact_error)
  lift (raise_if (not (project == store.project)) artifact_unavailable)
  found ← gets (λ (s : Space). lookup key s.objects)
  found_object p key dest found

-- shutil.copytree, of the members below a directory
abbrev copy_members : String → List (String × Entry) → Space → Space
copy_members target [] s = s
copy_members target ((m, e) ∷ rest) s = copy_members target rest (put_entry (under target m) e s)

abbrev copied : String → String → Option Entry → Exec Space String
copied src target none = raise artifact_unavailable
copied src target (some (file bytes)) = do write_file target bytes; pure target
copied src target (some folder) = do
  modify (λ (s : Space). copy_members target (members_of src s.disk) (put_entry target folder s))
  pure target

-- `_fetch_file`
unfoldable pub fetch_file : Platform → String → String → Exec Space String
unfolding write_file under base_name
fetch_file p path dest = do
  found ← gets (entry path)
  let target = under dest (base_name path)
  elim found [
    | none ↦ raise artifact_unavailable
    | some e ↦ if p.real path == p.real target then pure target else copied path target (some e)
  ]

abbrev save_download : String → Download → Exec Space String
save_download path refused = raise artifact_unavailable
save_download path (broken bytes) = do write_file path bytes; raise artifact_unavailable
save_download path (whole bytes) = do write_file path bytes; pure path

abbrev name_or : String → String → String
name_or name default = if name == "" then default else name

unfoldable pub fetch_http : Platform → String → String → String → Exec Space String
unfolding write_file under base_name
fetch_http p uri path dest =
    save_download (under dest (name_or (base_name path) "download")) (p.download uri)

-- Where the bytes of a reference are put, by the scheme of its URI.
unfoldable pub obtain : ArtifactStore → Platform → ArtifactRef → String → Exec Space String
unfolding urlparse scheme_is fetch_object fetch_file fetch_http
obtain store p ref dest =
    let url = urlparse ref.uri in
    if scheme_is "artifact" url.scheme
    then fetch_object store p url.netloc (strip_slashes url.path) dest
    else if scheme_is "file" url.scheme
    then fetch_file p url.path dest
    else if scheme_is "http" url.scheme || scheme_is "https" url.scheme
    then fetch_http p ref.uri url.path dest
    else raise artifact_unavailable

-- sha256_file(path) != ref.sha256
abbrev pub differs : Json → String → Bool
differs (str d) digest = not (digest == d)
differs _ digest = true

abbrev pub mismatch : Platform → Json → Option Entry → Bool
mismatch p expected (some (file bytes)) = truthy expected && differs expected (p.sha256 bytes)
mismatch p expected _ = false

unfoldable pub check_digest : Platform → ArtifactRef → String → Exec Space (Unit {0})
check_digest p ref path = do
  found ← gets (entry path)
  if mismatch p ref.sha256 found then rejected path else pure tt

abbrev unpack_entry : Platform → Option Entry → Result (List (String × Entry))
unpack_entry p (some (file bytes)) = p.unpack bytes
unpack_entry p _ = err os_error

abbrev first_name : List (String × Entry) → String → String
first_name [] stem = stem
first_name ((name, e) ∷ rest) stem = elim (split b'/' name) [ [] ↦ "" | root ∷ _ ↦ root ]

-- The name without its last suffix, if it has one.
abbrev init {ℓ} : {A : Type ℓ} → List A → List A
init [] = []
init (x ∷ []) = []
init (x ∷ y ∷ rest) = x ∷ init (y ∷ rest)

abbrev stem_of : String → String → String → String
stem_of name front suffix = if front == "" || suffix == "" then name else front

abbrev stem : String → String
stem name =
    let parts = split b'.' name in
    stem_of name (join "." (init parts)) (mutmuas.Bus.Split.last_or parts "")

-- `_extract`
unfoldable pub extract : Platform → String → String → Exec Space String
unfolding under base_name split join
extract p archive dest = do
  found ← gets (entry archive)
  members ← lift (unpack_entry p found)
  modify (copy_members dest members)
  modify (unlink archive)
  pure (under dest (first_name members (stem (base_name archive))))

abbrev pub has_suffix : String → String → Bool
has_suffix s String.[] = s == ""
has_suffix s (String.◌∷◌ c t) = s == String.◌∷◌ c t || has_suffix s t

abbrev is_dir_json : Json → Bool
is_dir_json (str t) = t == dir_media_type
is_dir_json _ = false

abbrev pub is_archive : ArtifactRef → String → Bool
is_archive ref path = is_dir_json ref.media_type || has_suffix archive_suffix (base_name path)

abbrev pub opened : Platform → ArtifactRef → String → String → Exec Space String
opened p ref dest path = if is_archive ref path then extract p path dest else pure path

abbrev pub is_file : Option Entry → Bool
is_file (some (file _)) = true
is_file _ = false

-- dest_dir.mkdir(parents=True, exist_ok=True)
abbrev pub make_dir : String → Exec Space (Unit {0})
make_dir dir s =
    if is_file (entry dir s) then (err os_error, s) else (ok tt, put_entry dir folder s)

-- `ArtifactStore.fetch`, into an absolute directory.
unfoldable pub fetch : ArtifactStore → Platform → ArtifactRef → String → Exec Space String
unfolding obtain check_digest extract
fetch store p ref dest = do
  make_dir dest
  path ← obtain store p ref dest
  check_digest p ref path
  opened p ref dest path
