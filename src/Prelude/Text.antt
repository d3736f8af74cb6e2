-- ===== src/Prelude/Text.antt =====
-- Python's operations on text that the source uses.
use Prim.Native.Nat.{ℕ, zero, suc, ◌-◌}
use Prim.Native.Char.{Char, code}
use Prim.Native.String.{String, ◌++◌, count}
use mathlib.Core.Bool.{Bool, true, false, ◌&&◌, ◌||◌}
use mathlib.Core.List.{List, [], ◌∷◌}
use mutmuas.Prelude.Tests.{nat_eq, leb, if◌then◌else◌}

-- s[:n], in characters
abbrev pub clip : ℕ → String → String
clip zero s = String.[]
clip (suc n) String.[] = String.[]
clip (suc n) (String.◌∷◌ c s) = String.◌∷◌ c (clip n s)

-- s[n:], in characters
abbrev pub skip : ℕ → String → String
skip zero s = s
skip (suc n) String.[] = String.[]
skip (suc n) (String.◌∷◌ c s) = skip n s

-- s[-n:], for a positive n
abbrev pub clip_end : ℕ → String → String
clip_end n s = skip (count s - n) s

abbrev pub is_nil : String → Bool
is_nil String.[] = true
is_nil (String.◌∷◌ _ _) = false

-- str.isspace, of one character
unfoldable pub is_space : ℕ → Bool
is_space c =
    (leb 9 c && leb c 13)
    || ((leb 28 c && leb c 32)
        || ((nat_eq c 133 || nat_eq c 160)
            || ((nat_eq c 0x1680 || (leb 0x2000 c && leb c 0x200a))
                || ((leb 0x2028 c && leb c 0x2029)
                    || (nat_eq c 0x202f || (nat_eq c 0x205f || nat_eq c 0x3000))))))

unfoldable pub strip_left : String → String
strip_left String.[] = String.[]
strip_left (String.◌∷◌ c s) = if is_space (code c) then strip_left s else String.◌∷◌ c s

abbrev pub cons_unless_blank : Char → String → String
cons_unless_blank c s = if is_space (code c) && is_nil s then String.[] else String.◌∷◌ c s

unfoldable pub strip_right : String → String
strip_right String.[] = String.[]
strip_right (String.◌∷◌ c s) = cons_unless_blank c (strip_right s)

-- str.strip
unfoldable pub strip : String → String
strip s = strip_right (strip_left s)

-- The characters that str.splitlines breaks at.
unfoldable pub is_break : ℕ → Bool
is_break c =
    (leb 10 c && leb c 13)
    || ((leb 28 c && leb c 30) || (nat_eq c 133 || (leb 0x2028 c && leb c 0x2029)))

-- A character in front of the first line.
abbrev pub push_first : Char → List String → List String
push_first d [] = String.◌∷◌ d String.[] ∷ []
push_first d (x ∷ xs) = String.◌∷◌ d x ∷ xs

abbrev starts_line : String → Bool
starts_line String.[] = false
starts_line (String.◌∷◌ c _) = nat_eq (code c) 10

-- str.splitlines: a carriage return and a newline are one break.
unfoldable pub split_lines : String → List String
unfolding is_break
split_lines String.[] = []
split_lines (String.◌∷◌ c s) =
    let lines = split_lines s in
    if nat_eq (code c) 13 && starts_line s
    then lines
    else if is_break (code c)
    then String.[] ∷ lines
    else push_first c lines

-- sep.join(parts)
abbrev pub join_from : String → String → List String → String
join_from sep s [] = s
join_from sep s (x ∷ xs) = s ++ (sep ++ join_from sep x xs)

unfoldable pub join : String → List String → String
join sep [] = ""
join sep (x ∷ xs) = join_from sep x xs

-- s.startswith(prefix), and s.removeprefix(prefix)
abbrev pub has_prefix : String → String → Bool
has_prefix String.[] s = true
has_prefix (String.◌∷◌ c p) String.[] = false
has_prefix (String.◌∷◌ c p) (String.◌∷◌ d s) = nat_eq (code c) (code d) && has_prefix p s

abbrev pub remove_prefix : String → String → String
remove_prefix p s = if has_prefix p s then skip (count p) s else s

-- p in s
unfoldable pub has_part : String → String → Bool
has_part p String.[] = is_nil p
has_part p (String.◌∷◌ c s) = has_prefix p (String.◌∷◌ c s) || has_part p s
