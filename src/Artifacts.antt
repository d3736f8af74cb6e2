-- ===== src/Artifacts.antt =====
-- The store of artifacts (src/mutmuas/artifacts.py): the files of a node, the objects of the shared store,
-- and the keys that objects are put under.
pub mod Url
pub mod Keys
pub mod Publish
pub mod Fetch
pub mod Checksum
pub mod RoundTrip
use Prim.Native.String.{◌++◌ as ◌⧺◌}
use mutmuas.Prelude.{
  ℕ, String, Bool, true, false, not, ◌&&◌, ◌||◌, Option, none, some, List, [], ◌∷◌, select, find,
  ◌==◌, if◌then◌else◌, join_from,
}
use mutmuas.Result.{Result, ok, err, artifact_error, os_error}
use mutmuas.Exec.{Exec, pure, raise}
use mutmuas.Bus.Split.{split}

pub data Entry : Type 0 where
  file : List ℕ → Entry
  folder : Entry

-- An object with the two headers that `publish` gives it.
pub record Object : Type 0 where
  pub content : List ℕ
  pub digest : Option String
  pub media_type : Option String

-- The files by their absolute paths, and the objects by their keys.
pub record Space : Type 0 where
  pub disk : List (String × Entry)
  pub objects : List (String × Object)

-- How a download ends: refused, broken off behind some bytes, or whole.
pub data Download : Type 0 where
  refused : Download
  broken whole : List ℕ → Download

-- What Python's library and the network answer: digests, the media type that a name suggests, archives of
-- a directory's members, the real path behind a path, and downloads.
pub record Platform : Type 0 where
  pub sha256 : List ℕ → String
  pub guess : String → Option String
  pub pack : String → List (String × Entry) → List ℕ
  pub unpack : List ℕ → Result (List (String × Entry))
  pub real : String → String
  pub download : String → Download

-- `ArtifactStore`; the bus is there or not.
pub record ArtifactStore : Type 0 where
  pub has_bus : Bool
  pub project : String
  pub node : String
  pub max_bytes : ℕ

abbrev pub dir_media_type : String
dir_media_type = "application/x-mutmuas-dir+tar.gz"

module _ {A : Type 0} where
  abbrev pub lookup : String → List (String × A) → Option A
  lookup k [] = none
  lookup k ((l, a) ∷ rest) = if l == k then some a else lookup k rest

  abbrev pub set : String → A → List (String × A) → List (String × A)
  set k a [] = (k, a) ∷ []
  set k a ((l, b) ∷ rest) = if l == k then (l, a) ∷ rest else (l, b) ∷ set k a rest

  abbrev pub remove : String → List (String × A) → List (String × A)
  remove k [] = []
  remove k ((l, b) ∷ rest) = if l == k then remove k rest else (l, b) ∷ remove k rest

abbrev pub entry : String → Space → Option Entry
entry path s = lookup path s.disk

abbrev pub put_entry : String → Entry → Space → Space
put_entry path e s = record s { disk = set path e s.disk }

-- path.unlink(missing_ok=True), of a file
abbrev pub unlink : String → Space → Space
unlink path s = record s { disk = remove path s.disk }

abbrev pub is_folder : Option Entry → Bool
is_folder (some folder) = true
is_folder _ = false

-- open(path, "wb") and a write: a directory cannot be opened.
unfoldable pub write_file : String → List ℕ → Exec Space (Unit {0})
write_file path bytes s =
    if is_folder (entry path s) then (err os_error, s) else (ok tt, put_entry path (file bytes) s)

-- dir / name
unfoldable pub under : String → String → String
under dir name = if name == "" then dir else if dir == "/" then "/" ⧺ name else dir ⧺ ("/" ⧺ name)

abbrev is_part : String → Bool
is_part p = not (p == "" || p == ".")

abbrev last_part : List String → String
last_part [] = ""
last_part (p ∷ []) = p
last_part (p ∷ q ∷ rest) = last_part (q ∷ rest)

-- Path(path).name
unfoldable pub base_name : String → String
unfolding split
base_name path = last_part (select is_part (split b'/' path))

-- key.replace("\\", "/").split("/"), and the parts that are kept
abbrev is_kept : String → Bool
is_kept p = not (p == "" || (p == "." || p == ".."))

slashed : String → String
slashed String.[] = String.[]
slashed (String.◌∷◌ c s) =
    if mutmuas.Prelude.nat_eq (Prim.Native.Char.code c) b'\\'
    then String.◌∷◌ "/" (slashed s)
    else String.◌∷◌ c (slashed s)

unfoldable pub key_parts : String → List String
unfolding slashed split
key_parts key = select is_kept (split b'/' (slashed key))

-- The parts joined by slashes; there is at least one.
abbrev pub key_of : List String → Result String
key_of [] = err artifact_error
key_of (p ∷ rest) = ok (join_from "/" p rest)

-- `_safe_key`
unfoldable pub safe_key : String → Result String
unfolding key_parts
safe_key key = key_of (key_parts key)
