-- ===== src/Json/Examples.antt =====
-- A run of the theorem on the strings of the telemetry.
use gempba.Base.{ℕ, ◌≡◌, List, [], ◌∷◌, ◌++◌, some}
use gempba.Json.Strings.{escape_quoted, read_string}
use gempba.Json.RoundTrip.{read_string-escape_quoted}

-- A quote, a backslash, a newline, an escape character and a letter
abbrev text : List ℕ
text = 34 ∷ 92 ∷ 10 ∷ 27 ∷ 65 ∷ []

read_string-escape_quoted_example :
    read_string (escape_quoted text ++ (44 ∷ 34 ∷ [])) ≡ some (text, 44 ∷ 34 ∷ [])
read_string-escape_quoted_example = read_string-escape_quoted text (44 ∷ 34 ∷ [])
