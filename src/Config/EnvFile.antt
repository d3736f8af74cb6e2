-- ===== src/Config/EnvFile.antt =====
-- KEY=VALUE files (src/mutmuas/config.py: read_env_file).
use mutmuas.Prelude.{
  String, Option, none, some, List, [], ◌∷◌, ◌==◌, if◌then◌else◌, strip, split_lines, has_prefix,
}
use mutmuas.Result.{Result, ok, err, config_error}
use mutmuas.Ids.{partition}

abbrev pub lookup : String → List (String × String) → Option String
lookup k [] = none
lookup k ((l, v) ∷ rest) = if l == k then some v else lookup k rest

-- out[key] = value
abbrev pub assign : String → String → List (String × String) → List (String × String)
assign k v [] = (k, v) ∷ []
assign k v ((l, w) ∷ rest) = if l == k then (l, v) ∷ rest else (l, w) ∷ assign k v rest

abbrev pub assign_found : Option (String × String) → List (String × String) → List (String × String)
assign_found none out = out
assign_found (some (k, v)) out = assign (strip k) (strip v) out

-- A line that is a comment, or has no "=", is passed over.
unfoldable pub read_line : String → List (String × String) → List (String × String)
unfolding strip partition
read_line line out =
    let text = strip line in
    if has_prefix "#" text then out else assign_found (partition b'=' text) out

unfoldable pub read_lines : List String → List (String × String) → List (String × String)
unfolding read_line
read_lines [] out = out
read_lines (l ∷ rest) out = read_lines rest (read_line l out)

-- `read_env_file`, of the text of the file if there is one.
unfoldable pub read_env_file : Option String → Result (List (String × String))
unfolding read_lines split_lines
read_env_file none = err config_error
read_env_file (some text) = ok (read_lines (split_lines text) [])
