-- ===== src/Bus/Split.antt =====
-- `str.split(sep)` for a separator of one character.
use Prim.Native.Char.{Char, code}
use Prim.Native.String.{◌++◌}
use text.Mathlib.TextLemmas.{nil-append, cons-append}
use mutmuas.Prelude.{ℕ, String, ◌≡◌, refl, List, [], ◌∷◌, nat_eq, arith, push_first, if◌then◌else◌}
use mutmuas.Ids.RoundTrip.{Lacks}

unfoldable pub split : ℕ → String → List String
split c String.[] = String.[] ∷ []
split c (String.◌∷◌ d s) =
    if nat_eq (code d) c then String.[] ∷ split c s else push_first d (split c s)

abbrev pub last_or {ℓ} : {A : Type ℓ} → List A → A → A
last_or [] d = d
last_or (x ∷ xs) d = last_or xs x

-- A part without the separator, the separator, and a rest.
pub split-append :
    (e : Char) (s t : String)
    → Lacks (code e) s
    → split (code e) (s ++ (String.◌∷◌ e t)) ≡ s ∷ split (code e) t
unfolding split
split-append e String.[] t h = rw nil-append (ground arith)
split-append e (String.◌∷◌ d s) t h = rw (cons-append, split) (rw (h.0, split-append e s t h.1))

pub split-Lacks : (c : ℕ) (s : String) → Lacks c s → split c s ≡ s ∷ []
unfolding split
split-Lacks c String.[] h = refl
split-Lacks c (String.◌∷◌ d s) h = rw (h.0, split-Lacks c s h.1)
