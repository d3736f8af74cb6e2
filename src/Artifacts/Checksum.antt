-- ===== src/Artifacts/Checksum.antt =====
-- What `fetch` returns has the digest that the reference states (src/mutmuas/artifacts.py: fetch).
use mutmuas.Prelude.{
  ℕ, String, ◌≡◌, ◌≢◌, ap, false, Option, some, List, arith, eq_iff, Bool-cases, inl, inr,
}
use mutmuas.Result.{ok}
use mutmuas.Exec.{>>=-eq-ok}
use mutmuas.Json.{Json, str}
use mutmuas.Protocol.Envelope.{ArtifactRef}
use mutmuas.Artifacts.{Entry, file, Space, Platform, ArtifactStore, entry}
use mutmuas.Artifacts.Fetch.{obtain, check_digest, mismatch, fetch, make_dir, opened}

accepted :
    (p : Platform) (ref : ArtifactRef) (path : String) (s : Space) (u : Unit {0})
    → (check_digest p ref path s).0 ≡ ok u
    → ((check_digest p ref path s).1 ≡ s) × (mismatch p ref.sha256 (entry path s) ≡ false)
unfolding check_digest
accepted p ref path s u h = elim (Bool-cases (mismatch p ref.sha256 (entry path s))) [
  | inl e ↦ absurd (ground arith)
  | inr e ↦ (ground arith, e)
]

same_digest :
    (p : Platform) (expected : Json) (found : Option Entry) (d : String) (bytes : List ℕ)
    → mismatch p expected found ≡ false
    → expected ≡ str d
    → d ≢ ""
    → found ≡ some (file bytes)
    → p.sha256 bytes ≡ d
same_digest p expected found d bytes h e n f =
    let h' = rw (e, f) at h in ground (arith, eq_iff d "", eq_iff (p.sha256 bytes) d)

-- What `fetch` obtained before it returned: a path, and the state in which the file there has the digest.
pub record Obtained (store : ArtifactStore) (p : Platform) (ref : ArtifactRef) (dest d : String)
    (s : Space) (path : String) (t : Space) : Type 0 where
  pub at : String
  pub after : Space
  pub obtains : obtain store p ref dest (make_dir dest s).1 ≡ (ok at, after)
  pub digest : (bytes : List ℕ) → entry at after ≡ some (file bytes) → p.sha256 bytes ≡ d
  pub opens : opened p ref dest at after ≡ (ok path, t)

-- If a reference states a digest, `fetch` returns only what it made of a file with that digest (or of a
-- directory): nothing is returned or unpacked before its digest was compared.
pub fetch_checked :
    (store : ArtifactStore) (p : Platform) (ref : ArtifactRef) (dest path d : String) (s t : Space)
    → fetch store p ref dest s ≡ (ok path, t)
    → ref.sha256 ≡ str d
    → d ≢ ""
    → Obtained store p ref dest d s path t
unfolding fetch
fetch_checked store p ref dest path d s t h e n =
    let (u, made, rest) = >>=-eq-ok (make_dir dest) _ s h in
    let (q, found, last) = >>=-eq-ok (obtain store p ref dest) _ (make_dir dest s).1 rest in
    let s₂ = (obtain store p ref dest (make_dir dest s).1).1 in
    let (v, fits, end) = >>=-eq-ok (check_digest p ref q) (λ _. opened p ref dest q) s₂ last in
    let (same, holds) = accepted p ref q s₂ v fits in
    record {
      at = q;
      after = s₂;
      obtains = ap (λ r. (r, s₂)) found;
      digest = λ bytes f. same_digest p ref.sha256 (entry q s₂) d bytes holds e n f;
      opens = rw same at end;
    }
