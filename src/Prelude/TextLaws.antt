-- ===== src/Prelude/TextLaws.antt =====
-- Laws of the text operations.
use Prim.Native.Char.{code}
use Prim.Native.String.{String, ◌++◌}
use Prim.Native.Nat.{ℕ}
use text.Mathlib.TextLemmas.{nil-append, cons-append}
use mathlib.Core.Path.{◌≡◌, refl}
use mathlib.Core.Bool.{Bool, true, false}
use mathlib.Core.List.{◌∷◌}
use native.Mathlib.Omega.{arith}
use mutmuas.Prelude.Tests.{nat_eq, if◌then◌else◌}
use mutmuas.Prelude.Text.{
  is_space, strip_left, strip_right, strip, is_break, split_lines, has_prefix,
}

-- The test accepts no character of the text.
abbrev pub Avoids : (ℕ → Bool) → String → Type 0
Avoids stop String.[] = Unit
Avoids stop (String.◌∷◌ c s) = (stop (code c) ≡ false) × Avoids stop s

pub Avoids-append :
    (stop : ℕ → Bool) (s t : String) → Avoids stop s → Avoids stop t → Avoids stop (s ++ t)
Avoids-append stop String.[] t h k = rw nil-append k
Avoids-append stop (String.◌∷◌ c s) t (h, hs) k = rw cons-append (h, Avoids-append stop s t hs k)

pub Avoids-imp :
    (p q : ℕ → Bool)
    → ((c : ℕ) → p c ≡ false → q c ≡ false)
    → (s : String) → Avoids p s
    → Avoids q s
Avoids-imp p q f String.[] h = tt
Avoids-imp p q f (String.◌∷◌ c s) (h, hs) = (f (code c) h, Avoids-imp p q f s hs)

-- Every line break is a space.
pub no_space-no_break : (c : ℕ) → is_space c ≡ false → is_break c ≡ false
unfolding is_space is_break
no_space-no_break c h = ground arith

no_return : (c : ℕ) → is_break c ≡ false → nat_eq c 13 ≡ false
unfolding is_break
no_return c h = ground arith

-- A line without breaks, and a newline behind it.
pub split_lines-append :
    (s t : String) → Avoids is_break s → split_lines (s ++ (String.◌∷◌ "\n" t)) ≡ s ∷ split_lines t
unfolding split_lines
split_lines-append String.[] t h = rw (nil-append, split_lines) (unfold is_break in refl)
split_lines-append (String.◌∷◌ c s) t (h, hs) =
    rw (cons-append, split_lines, no_return (code c) h, h, split_lines-append s t hs) refl

strip_left-Avoids : (s : String) → Avoids is_space s → strip_left s ≡ s
unfolding strip_left
strip_left-Avoids String.[] h = refl
strip_left-Avoids (String.◌∷◌ c s) (h, hs) = rw h refl

strip_right-Avoids : (s : String) → Avoids is_space s → strip_right s ≡ s
unfolding strip_right
strip_right-Avoids String.[] h = refl
strip_right-Avoids (String.◌∷◌ c s) (h, hs) = rw (strip_right-Avoids s hs, h) refl

-- A text without spaces is its own strip.
pub strip-Avoids : (s : String) → Avoids is_space s → strip s ≡ s
unfolding strip
strip-Avoids s h = rw (strip_left-Avoids s h, strip_right-Avoids s h) refl

pub has_prefix-append : (p s : String) → has_prefix p (p ++ s) ≡ true
has_prefix-append String.[] s = refl
has_prefix-append (String.◌∷◌ c p) s = rw cons-append (ground (arith, has_prefix-append p s))

-- Two texts that differ at a place that both have.
abbrev pub clash : String → String → Bool
clash String.[] s = false
clash (String.◌∷◌ c p) String.[] = false
clash (String.◌∷◌ c p) (String.◌∷◌ d s) = if nat_eq (code c) (code d) then clash p s else true

pub has_prefix-clash : (p s t : String) → clash p s ≡ true → has_prefix p (s ++ t) ≡ false
has_prefix-clash String.[] s t h = cc
has_prefix-clash (String.◌∷◌ c p) String.[] t h = cc
has_prefix-clash (String.◌∷◌ c p) (String.◌∷◌ d s) t h =
    rw cons-append (ground (arith, has_prefix-clash p s t))
