-- ===== src/Artifacts/Publish.antt =====
-- `ArtifactStore.publish` and `list` (src/mutmuas/artifacts.py).
use Prim.Native.String.{◌++◌ as ◌⧺◌}
use mutmuas.Prelude.{
  ℕ, String, not, Option, none, some, List, [], ◌∷◌, map, length, ltb, ◌==◌, if◌then◌else◌,
  has_prefix, remove_prefix,
}
use mutmuas.Result.{artifact_error, raise_if}
use mutmuas.Exec.{Exec, ◌>>=◌, ◌>>◌, gets, modify, pure, raise, lift}
use mutmuas.Json.{Json, null, str, num, int}
use mutmuas.Protocol.Envelope.{ArtifactRef}
use mutmuas.Artifacts.{
  Entry, file, folder, Object, Space, Platform, ArtifactStore, dir_media_type, entry, set,
  base_name, safe_key,
}

-- The entries below a directory, by their paths within it.
abbrev pub members_of : String → List (String × Entry) → List (String × Entry)
members_of dir [] = []
members_of dir ((p, e) ∷ rest) =
    if has_prefix (dir ⧺ "/") p
    then (remove_prefix (dir ⧺ "/") p, e) ∷ members_of dir rest
    else members_of dir rest

-- The members of the archive of a directory: the directory itself and what is below it.
abbrev pub archived : String → String → Space → List (String × Entry)
archived name dir s =
    (name, folder) ∷ map (λ (m : String × Entry). (name ⧺ ("/" ⧺ m.0), m.1)) (members_of dir s.disk)

abbrev id_or : String → String → Json
id_or id name = str (if id == "" then name else id)

abbrev text_or_null : Option String → Json
text_or_null none = null
text_or_null (some s) = str s

-- backend="file": the reference names the file where it lies.
unfoldable pub file_ref : ArtifactStore → Platform → String → String → String → Entry → ArtifactRef
unfolding base_name
file_ref store p src id description (file bytes) = record {
  uri = "file://" ⧺ (store.node ⧺ src);
  id = id_or id (base_name src);
  size = num (int (length bytes));
  sha256 = str (p.sha256 bytes);
  media_type = text_or_null (p.guess (base_name src));
  description = str description;
}
file_ref store p src id description folder = record {
  uri = "file://" ⧺ (store.node ⧺ src);
  id = id_or id (base_name src);
  size = null;
  sha256 = null;
  media_type = str "inode/directory";
  description = str description;
}

-- What is uploaded, and its media type: a file as it is, a directory as an archive.
abbrev pub upload : Platform → String → Entry → Space → List ℕ × Option String
upload p src (file bytes) s = (bytes, p.guess (base_name src))
upload p src folder s =
    (p.pack (base_name src) (archived (base_name src) src s), some dir_media_type)

abbrev pub text_or_empty : Option String → String
text_or_empty none = ""
text_or_empty (some s) = s

abbrev pub object_of : Platform → List ℕ → Option String → Object
object_of p bytes media_type = record {
  content = bytes;
  digest = some (p.sha256 bytes);
  media_type = some (text_or_empty media_type);
}

abbrev pub put_object : String → Object → Space → Space
put_object key o s = record s { objects = set key o s.objects }

abbrev pub object_ref :
    ArtifactStore
    → Platform
    → String
    → String
    → String
    → String
    → List ℕ
    → Option String
    → ArtifactRef
object_ref store p key src id description bytes media_type = record {
  uri = "artifact://" ⧺ (store.project ⧺ ("/" ⧺ key));
  id = id_or id (base_name src);
  size = num (int (length bytes));
  sha256 = str (p.sha256 bytes);
  media_type = text_or_null media_type;
  description = str description;
}

-- backend="object": within the cap, under a safe key.
unfoldable pub publish_object :
    ArtifactStore → Platform → String → String → String → String → Entry → Exec Space ArtifactRef
unfolding base_name safe_key
publish_object store p src key id description e = do
  up ← gets (upload p src e)
  lift (raise_if (ltb store.max_bytes (length up.0)) artifact_error)
  k ← lift (safe_key key)
  modify (put_object k (object_of p up.0 up.1))
  pure (object_ref store p k src id description up.0 up.1)

abbrev publish_entry :
    ArtifactStore
    → Platform
    → String
    → String
    → String
    → String
    → String
    → Option Entry
    → Exec Space ArtifactRef
publish_entry store p src key id description backend none = raise artifact_error
publish_entry store p src key id description backend (some e) =
    if backend == "file"
    then pure (file_ref store p src id description e)
    else if not (backend == "object")
    then raise artifact_error
    else if not store.has_bus
    then raise artifact_error
    else publish_object store p src key id description e

-- `ArtifactStore.publish`, of an absolute path; the object store takes what it is given.
unfoldable pub publish :
    ArtifactStore → Platform → String → String → String → String → String → Exec Space ArtifactRef
unfolding publish_object file_ref
publish store p src key id description backend = do
  e ← gets (entry (p.real src))
  publish_entry store p (p.real src) key id description backend e
