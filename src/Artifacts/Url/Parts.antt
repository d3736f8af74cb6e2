-- ===== src/Artifacts/Url/Parts.antt =====
-- The parts of the URIs that `publish` writes (src/mutmuas/artifacts.py).
use Prim.Native.Char.{Char, code}
use Prim.Native.String.{◌++◌}
use text.Mathlib.TextLemmas.{nil-append, cons-append}
use mutmuas.Prelude.{ℕ, String, ◌≡◌, refl, Bool, true, Avoids, Avoids-append}
use mutmuas.Artifacts.Url.{
  is_unsafe, span, ends_netloc, ends_path, trimmed, without_breaks, urlparse,
}

span-append :
    (stop : ℕ → Bool) (s t : String) (c : Char)
    → Avoids stop s
    → stop (code c) ≡ true
    → span stop (s ++ (String.◌∷◌ c t)) ≡ (s, String.◌∷◌ c t)
unfolding span
span-append stop String.[] t c h k = rw (nil-append, span, k) refl
span-append stop (String.◌∷◌ d s) t c (h, hs) k =
    rw (cons-append, span, h, span-append stop s t c hs k) refl

span_all : (stop : ℕ → Bool) (s : String) → Avoids stop s → span stop s ≡ (s, String.[])
unfolding span
span_all stop String.[] h = refl
span_all stop (String.◌∷◌ c s) (h, hs) = rw (h, span_all stop s hs) refl

without_breaks-Avoids : (s : String) → Avoids is_unsafe s → without_breaks s ≡ s
unfolding without_breaks
without_breaks-Avoids String.[] h = refl
without_breaks-Avoids (String.◌∷◌ c s) (h, hs) = rw (h, without_breaks-Avoids s hs) refl

pub slash_append : (s : String) → "/" ++ s ≡ String.◌∷◌ "/" s
slash_append s = rw (cons-append, nil-append) refl

artifact_append :
    (s : String)
    → "artifact://" ++ s
      ≡ String.◌∷◌ "a" (
          String.◌∷◌ "r" (
            String.◌∷◌ "t" (
              String.◌∷◌ "i" (
                String.◌∷◌ "f" (
                  String.◌∷◌ "a" (
                    String.◌∷◌ "c"
                      (String.◌∷◌ "t" (String.◌∷◌ ":" (String.◌∷◌ "/" (String.◌∷◌ "/" s))))))))))
artifact_append s =
    rw
      (
        cons-append, cons-append, cons-append, cons-append, cons-append, cons-append, cons-append,
        cons-append, cons-append, cons-append, cons-append, nil-append,
      )
      refl

-- A name that can stand as the authority, and a path that can stand in a URI as it is.
abbrev pub IsAuthority : String → Type 0
IsAuthority s = Avoids is_unsafe s × Avoids ends_netloc s

abbrev pub IsPlainPath : String → Type 0
IsPlainPath s = Avoids is_unsafe s × Avoids ends_path s

-- The URI of an object names its project and its key.
pub urlparse-artifact :
    (project key : String)
    → IsAuthority project
    → IsPlainPath key
    → urlparse ("artifact://" ++ (project ++ ("/" ++ key)))
      ≡ record { scheme = "artifact"; netloc = project; path = String.◌∷◌ "/" key }
unfolding urlparse
urlparse-artifact project key h k =
    let body = project ++ ("/" ++ key) in
    let clean : Avoids is_unsafe body =
      Avoids-append is_unsafe project _ h.0 (rw slash_append (refl, k.0)) in
    rw (artifact_append, urlparse, trimmed, without_breaks, without_breaks-Avoids body clean)
      (rw (slash_append, span-append ends_netloc project key "/" h.1 refl)
        (rw (span, span_all ends_path key k.1) refl))
