-- ===== src/Hub/Notes.antt =====
-- The note on a message in a task's thread (src/mutmuas/hub.py: _note; src/mutmuas/tools.py: _note).
use mutmuas.Prelude.{ℕ, String, List, [], ◌∷◌, clip, if◌then◌else◌}
use mutmuas.Result.{Result, ok, err, attribute_error, untyped}
use mutmuas.Json.{Json, str, obj, Fields, end, get, or_else, truthy}

-- str(value)[:n]; the text of a value that is no text is outside the model.
abbrev shortened : ℕ → Json → Result Json
shortened n (str s) = ok (str (clip n s))
shortened n _ = err untyped

-- The first of the fields that is not empty, shortened.
abbrev first_field : ℕ → List String → Fields → Result Json
first_field n [] body = ok (str "")
first_field n (k ∷ ks) body =
    if truthy (get body k) then shortened n (get body k) else first_field n ks body

abbrev pub body_note : ℕ → List String → Json → Result Json
body_note n keys (obj body) = first_field n keys body
body_note n keys _ = err attribute_error

unfoldable pub note : Fields → Result Json
note m =
    body_note 200 ("objective" ∷ "summary" ∷ "message" ∷ "reason" ∷ "question" ∷ "answer" ∷ [])
      (or_else (get m "body") (obj end))
