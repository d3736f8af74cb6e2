-- ===== src/Ids.antt =====
-- Agent addresses `NODE:agent` and the tokens that they are made of (src/mutmuas/ids.py).
pub mod RoundTrip
use Prim.Native.Char.{code}
use Prim.Native.String.{◌++◌}
use mathlib.Core.Option
use mutmuas.Prelude.{
  ℕ, ◌+◌, String, Bool, true, false, ◌&&◌, ◌||◌, Option, none, some, nat_eq, leb, if◌then◌else◌,
}
use mutmuas.Result.{Result, ok, err, bad_address, ◌>>=◌}

-- [A-Za-z0-9_-]
unfoldable pub token_char : ℕ → Bool
token_char c =
    (leb b'A' c && leb c b'Z')
    || ((leb b'a' c && leb c b'z')
        || ((leb b'0' c && leb c b'9') || (nat_eq c b'_' || nat_eq c b'-')))

-- The match of `TOKEN_RE` behind `n` characters of the class. `$` also stands before a newline
-- that ends the text.
unfoldable pub matches_from : ℕ → String → Bool
matches_from n String.[] = leb 1 n && leb n 64
matches_from n (String.◌∷◌ c String.[]) =
    if token_char (code c)
    then leb 1 (n + 1) && leb (n + 1) 64
    else nat_eq (code c) 10 && (leb 1 n && leb n 64)
matches_from n (String.◌∷◌ c (String.◌∷◌ d s)) =
    token_char (code c) && matches_from (n + 1) (String.◌∷◌ d s)

unfoldable pub check_token : String → Result String
check_token value = if matches_from 0 value then ok value else err bad_address

pub record Address : Type 0 where
  pub node : String
  pub agent : String

-- What stands before and behind the first character with the code `c`.
unfoldable pub partition : ℕ → String → Option (String × String)
partition c String.[] = none
partition c (String.◌∷◌ d s) =
    if nat_eq (code d) c
    then some (String.[], s)
    else Option.map (λ (p : String × String). (String.◌∷◌ d p.0, p.1)) (partition c s)

address_of : Option (String × String) → Result Address
unfolding check_token
address_of none = err bad_address
address_of (some (n, a)) = do
  node ← check_token n
  agent ← check_token a
  ok (record { node = node; agent = agent })

-- `Address.parse`
unfoldable pub parse : String → Result Address
unfolding address_of
parse text = address_of (partition b':' text)

-- `Address.__str__`
unfoldable pub to_text : Address → String
to_text a = a.node ++ (":" ++ a.agent)
