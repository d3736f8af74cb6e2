-- ===== src/Artifacts/Url.antt =====
-- `urllib.parse.urlparse` as the fetching of artifacts uses it: scheme, authority and path. Its further
-- checks of the authority, which concern brackets and characters beyond ASCII, are left out.
pub mod Parts
use Prim.Native.Char.{code}
use mutmuas.Prelude.{
  ℕ, ◌+◌, String, Bool, true, false, not, ◌&&◌, ◌||◌, Option, none, some, List, [], ◌∷◌, any,
  nat_eq, leb, if◌then◌else◌, is_nil,
}
use mutmuas.Ids.{partition}

pub record Url : Type 0 where
  pub scheme : String
  pub netloc : String
  pub path : String

-- Spaces and control characters in front; tabs and line breaks anywhere.
unfoldable pub trimmed : String → String
trimmed String.[] = String.[]
trimmed (String.◌∷◌ c s) = if leb (code c) 32 then trimmed s else String.◌∷◌ c s

abbrev pub is_unsafe : ℕ → Bool
is_unsafe c = nat_eq c 9 || (nat_eq c 10 || nat_eq c 13)

unfoldable pub without_breaks : String → String
without_breaks String.[] = String.[]
without_breaks (String.◌∷◌ c s) =
    if is_unsafe (code c) then without_breaks s else String.◌∷◌ c (without_breaks s)

-- What stands before the first character that the test accepts, and the rest with it.
unfoldable pub span : (ℕ → Bool) → String → String × String
span stop String.[] = (String.[], String.[])
span stop (String.◌∷◌ c s) =
    let (a, b) = span stop s in
    if stop (code c) then (String.[], String.◌∷◌ c s) else (String.◌∷◌ c a, b)

abbrev is_upper : ℕ → Bool
is_upper c = leb b'A' c && leb c b'Z'

abbrev is_lower : ℕ → Bool
is_lower c = leb b'a' c && leb c b'z'

abbrev pub is_letter : ℕ → Bool
is_letter c = is_upper c || is_lower c

abbrev pub scheme_char : ℕ → Bool
scheme_char c =
    is_letter c
    || ((leb b'0' c && leb c b'9') || (nat_eq c b'+' || (nat_eq c b'-' || nat_eq c b'.')))

unfoldable pub all_scheme : String → Bool
all_scheme String.[] = true
all_scheme (String.◌∷◌ c s) = scheme_char (code c) && all_scheme s

abbrev is_scheme : String → Bool
is_scheme String.[] = false
is_scheme (String.◌∷◌ c s) = is_letter (code c) && all_scheme (String.◌∷◌ c s)

abbrev pub ends_netloc : ℕ → Bool
ends_netloc c = nat_eq c b'/' || (nat_eq c b'?' || nat_eq c b'#')

abbrev pub ends_path : ℕ → Bool
ends_path c = nat_eq c b'?' || nat_eq c b'#'

-- The authority behind two slashes, and the path.
unfoldable pub located : String → String → Url
unfolding span
located scheme (String.◌∷◌ c (String.◌∷◌ d rest)) =
    let both = nat_eq (code c) b'/' && nat_eq (code d) b'/' in
    let (netloc, more) = span ends_netloc rest in
    if both
    then record { scheme = scheme; netloc = netloc; path = (span ends_path more).0 }
    else record {
      scheme = scheme;
      netloc = "";
      path = (span ends_path (String.◌∷◌ c (String.◌∷◌ d rest))).0;
    }
located scheme text = record { scheme = scheme; netloc = ""; path = (span ends_path text).0 }

abbrev pub with_scheme : String → Option (String × String) → Url
with_scheme text none = located "" text
with_scheme text (some (s, rest)) = if is_scheme s then located s rest else located "" text

-- A scheme in any case of its letters.
unfoldable pub scheme_is : String → String → Bool
scheme_is String.[] String.[] = true
scheme_is String.[] (String.◌∷◌ _ _) = false
scheme_is (String.◌∷◌ _ _) String.[] = false
scheme_is (String.◌∷◌ c s) (String.◌∷◌ d t) =
    (nat_eq (code d) (code c) || (is_upper (code d) && nat_eq (code d + 32) (code c)))
    && scheme_is s t

-- uses_params, of urllib.parse
abbrev pub with_params : List String
with_params =
    "" ∷ "ftp" ∷ "hdl" ∷ "prospero" ∷ "http" ∷ "imap" ∷ "https" ∷ "shttp" ∷ "rtsp" ∷ "rtspu" ∷ "sip"
    ∷ "sips" ∷ "mms" ∷ "sftp" ∷ "tel" ∷ []

unfoldable pub has_slash : String → Bool
has_slash String.[] = false
has_slash (String.◌∷◌ c s) = nat_eq (code c) b'/' || has_slash s

-- A path without the parameters of its last segment.
unfoldable pub cut_params : String → String
unfolding has_slash
cut_params String.[] = String.[]
cut_params (String.◌∷◌ c s) =
    if nat_eq (code c) b';' && not (has_slash s) then String.[] else String.◌∷◌ c (cut_params s)

unfoldable pub without_params : Url → Url
unfolding scheme_is cut_params
without_params u =
    if any (λ s. scheme_is s u.scheme) with_params then record u { path = cut_params u.path } else u

-- `urlparse`
unfoldable pub urlparse : String → Url
unfolding trimmed without_breaks located all_scheme partition without_params
urlparse url =
    let text = without_breaks (trimmed url) in
    without_params (with_scheme text (partition b':' text))
