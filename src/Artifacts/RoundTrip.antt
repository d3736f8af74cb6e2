-- ===== src/Artifacts/RoundTrip.antt =====
-- What is published can be fetched (src/mutmuas/artifacts.py: publish, fetch).
use Prim.Native.Char.{code}
use Prim.Native.String.{◌++◌}
use mutmuas.Prelude.{
  ℕ, String, ◌≡◌, refl, true, false, nat_eq, arith, Option, none, some, List, [], ◌∷◌, ltb, length,
  ◌==◌, eq_refl, Bool-cases, inl, inr, All,
}
use mutmuas.Result.{ok}
use mutmuas.Json.{str}
use mutmuas.Protocol.Envelope.{ArtifactRef}
use mutmuas.Artifacts.{
  Entry, file, folder, Object, Space, Platform, ArtifactStore, entry, lookup, set, put_entry,
  is_folder, under, base_name, safe_key, write_file,
}
use mutmuas.Bus.Split.{split}
use mutmuas.Artifacts.Keys.{IsPart, safe_key_safe}
use mutmuas.Artifacts.Url.{scheme_is}
use mutmuas.Artifacts.Url.Parts.{IsAuthority, IsPlainPath, urlparse-artifact}
use mutmuas.Artifacts.Publish.{
  publish, publish_object, object_of, put_object, object_ref, text_or_empty,
}
use mutmuas.Artifacts.Fetch.{
  fetch, is_file, make_dir, obtain, fetch_object, save_object, is_dir_type, check_digest,
  is_archive, strip_slashes, target_name, archive_suffix, has_suffix,
}

module _ {A : Type 0} where
  lookup-set : (k : String) (a : A) (l : List (String × A)) → lookup k (set k a l) ≡ some a
  lookup-set k a [] = rw eq_refl refl
  lookup-set k a ((m, b) ∷ rest) = elim (Bool-cases (m == k)) [
    | inl e ↦ rw (e, e) refl
    | inr e ↦ rw (e, e, lookup-set k a rest) refl
  ]

-- An object that is in the store under a key, with the digest of its content, and is no directory.
pub record IsStored (p : Platform) (s : Space) (key : String) (o : Object) : Type 0 where
  pub found : lookup key s.objects ≡ some o
  pub digest : o.digest ≡ some (p.sha256 o.content)
  pub plain : is_dir_type o.media_type ≡ false

-- A directory that is no file, in which the name is no directory.
pub record IsFree (disk : List (String × Entry)) (dest name : String) : Type 0 where
  pub usable : is_file (lookup dest disk) ≡ false
  pub open_ : is_folder (lookup (under dest name) (set dest folder disk)) ≡ false

make_dir_lem :
    (dest : String) (s : Space)
    → is_file (entry dest s) ≡ false
    → make_dir dest s ≡ (ok tt, put_entry dest folder s)
make_dir_lem dest s h = rw h refl

abbrev stored : String → List ℕ → Space → Space
stored path bytes s = put_entry path (file bytes) s

save_object-saves :
    (p : Platform) (target : String) (o : Object) (s : Space)
    → is_folder (entry target s) ≡ false
    → o.digest ≡ some (p.sha256 o.content)
    → save_object p target o s ≡ (ok target, stored target o.content s)
unfolding save_object write_file
save_object-saves p target o s h d = rw (h, d, eq_refl (p.sha256 o.content)) (ground arith)

check_digest-passes :
    (p : Platform) (ref : ArtifactRef) (path : String) (bytes : List ℕ) (s : Space)
    → ref.sha256 ≡ str (p.sha256 bytes)
    → entry path s ≡ some (file bytes)
    → check_digest p ref path s ≡ (ok tt, s)
unfolding check_digest
check_digest-passes p ref path bytes s h e = rw (e, h, eq_refl (p.sha256 bytes)) (ground arith)

obtain-stored :
    (store : ArtifactStore) (p : Platform) (ref : ArtifactRef) (dest key : String) (o : Object)
    (s : Space)
    → store.has_bus ≡ true
    → IsAuthority store.project
    → IsPlainPath key
    → strip_slashes key ≡ key
    → ref.uri ≡ "artifact://" ++ (store.project ++ ("/" ++ key))
    → lookup key s.objects ≡ some o
    → obtain store p ref dest s ≡ save_object p (under dest (target_name key o)) o s
unfolding obtain fetch_object scheme_is
obtain-stored store p ref dest key o s b a k n u f =
    rw (u, urlparse-artifact store.project key a k) (rw (n, b, eq_refl store.project, f) refl)

fetch-stored :
    (store : ArtifactStore) (p : Platform) (ref : ArtifactRef) (dest key : String) (o : Object)
    (s : Space)
    → store.has_bus ≡ true
    → IsAuthority store.project
    → IsPlainPath key
    → strip_slashes key ≡ key
    → ref.uri ≡ "artifact://" ++ (store.project ++ ("/" ++ key))
    → ref.sha256 ≡ str (p.sha256 o.content)
    → IsStored p s key o
    → IsFree s.disk dest (base_name key)
    → is_archive ref (under dest (base_name key)) ≡ false
    → fetch store p ref dest s ≡ (
      ok (under dest (base_name key)),
      stored (under dest (base_name key)) o.content (put_entry dest folder s),
    )
unfolding fetch
fetch-stored store p ref dest key o s b a k n u d i f r =
    let m = put_entry dest folder s in
    let target = under dest (base_name key) in
    let got : obtain store p ref dest m ≡ (ok target, stored target o.content m) =
      rw (obtain-stored store p ref dest key o m b a k n u i.found, i.plain)
        (save_object-saves p target o m f.open_ i.digest) in
    let fits =
      check_digest-passes p ref target o.content (stored target o.content m) d
        (lookup-set target (file o.content) m.disk) in
    rw (make_dir_lem dest s f.usable, got, fits, r) refl

-- A key whose parts are not empty does not begin with a slash.
strip_slashes-parts : (k : String) → All IsPart (split b'/' k) → strip_slashes k ≡ k
unfolding split
strip_slashes-parts String.[] h = refl
strip_slashes-parts (String.◌∷◌ c s) h = elim (Bool-cases (nat_eq (code c) b'/')) [
  | inl e ↦ let h' = rw e at h in absurd (ground arith)
  | inr e ↦ rw e refl
]

publish_file :
    (store : ArtifactStore) (p : Platform) (src key k id description : String) (bytes : List ℕ)
    (s : Space)
    → store.has_bus ≡ true
    → entry (p.real src) s ≡ some (file bytes)
    → ltb store.max_bytes (length bytes) ≡ false
    → safe_key key ≡ ok k
    → let media = p.guess (base_name (p.real src)) in
      publish store p src key id description "object" s ≡ (
        ok (object_ref store p k (p.real src) id description bytes media),
        put_object k (object_of p bytes media) s,
      )
unfolding publish publish_object
publish_file store p src key k id description bytes s b e c h = rw (e, b, c, h) refl

dir_type :
    (t : Option String) → is_dir_type t ≡ false → is_dir_type (some (text_or_empty t)) ≡ false
dir_type none h = refl
dir_type (some t) h = h

not_archive :
    (store : ArtifactStore) (p : Platform) (k src id description path : String) (bytes : List ℕ)
    (media : Option String)
    → is_dir_type media ≡ false
    → has_suffix archive_suffix (base_name path) ≡ false
    → is_archive (object_ref store p k src id description bytes media) path ≡ false
not_archive store p k src id description path bytes none h n = n
not_archive store p k src id description path bytes (some t) h n = rw (h, n) refl

-- A file that is published as an object is fetched with the same content, under the name that its key ends
-- in: if it is within the cap, its key and the project can stand in a URI (no "?", "#", tab or line
-- break), its name and its media type are not those of an archive, and the destination is free.
pub fetch-publish :
    (store : ArtifactStore) (p : Platform) (src key k id description dest : String) (bytes : List ℕ)
    (s : Space)
    → store.has_bus ≡ true
    → entry (p.real src) s ≡ some (file bytes)
    → ltb store.max_bytes (length bytes) ≡ false
    → safe_key key ≡ ok k
    → IsAuthority store.project
    → IsPlainPath k
    → is_dir_type (p.guess (base_name (p.real src))) ≡ false
    → has_suffix archive_suffix (base_name (under dest (base_name k))) ≡ false
    → IsFree s.disk dest (base_name k)
    → (ref : ArtifactRef) × (u t : Space) × (publish store p src key id description "object" s
        ≡ (ok ref, u))
      × (fetch store p ref dest u ≡ (ok (under dest (base_name k)), t))
      × (entry (under dest (base_name k)) t ≡ some (file bytes))
fetch-publish store p src key k id description dest bytes s b e c h a n m x f =
    let media = p.guess (base_name (p.real src)) in
    let o = object_of p bytes media in
    let ref = object_ref store p k (p.real src) id description bytes media in
    let u = put_object k o s in
    let i : IsStored p u k o = record {
      found = lookup-set k o s.objects;
      digest = refl;
      plain = dir_type media m;
    } in
    let fetched =
      fetch-stored store p ref dest k o u b a n (strip_slashes-parts k (safe_key_safe key k h).0)
        refl refl i (record { usable = f.usable; open_ = f.open_ })
        (not_archive store p k (p.real src) id description _ bytes media m x) in
    (
      ref,
      u,
      stored (under dest (base_name k)) bytes (put_entry dest folder u),
      publish_file store p src key k id description bytes s b e c h,
      fetched,
      lookup-set (under dest (base_name k)) (file bytes) (set dest folder u.disk),
    )
