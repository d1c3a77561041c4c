-- ===== src/Json/Strings.antt =====
-- escape_quoted in json_serializer.cpp, on the bytes of a string, and what a JSON reader makes of them: the
-- grammar of a string in RFC 8259, with \u for a single byte only.
use gempba.Base.{
  ℕ, zero, suc, ◌+◌, ◌-◌, ◌*◌, ◌/◌, ◌%◌, ◌==◌, ltb, leb, if◌then◌else◌, ◌&&◌, ◌||◌, List, [], ◌∷◌,
  ◌++◌, Option, none, some, length,
}

-- A digit of "%04x"
abbrev pub hex_digit : ℕ → ℕ
hex_digit d = if ltb d 10 then 48 + d else 87 + d

-- The switch on one character: the double quote is 34, the backslash 92.
unfoldable pub escape_char : ℕ → List ℕ
escape_char c =
    if c == 34
    then 92 ∷ 34 ∷ []
    else if c == 92
    then 92 ∷ 92 ∷ []
    else if c == 10
    then 92 ∷ 110 ∷ []
    else if c == 13
    then 92 ∷ 114 ∷ []
    else if c == 9
    then 92 ∷ 116 ∷ []
    else if ltb c 32
    then 92 ∷ 117 ∷ 48 ∷ 48 ∷ hex_digit (c / 16) ∷ hex_digit (c % 16) ∷ []
    else c ∷ []

unfoldable pub escape_body : List ℕ → List ℕ
unfolding escape_char
escape_body [] = []
escape_body (c ∷ cs) = escape_char c ++ escape_body cs

unfoldable pub escape_quoted : List ℕ → List ℕ
unfolding escape_body
escape_quoted cs = 34 ∷ (escape_body cs ++ 34 ∷ [])

-- The reader: what stands next in a string, and what follows it.
pub data Token : Type 0 where
  bad : Token
  closed : List ℕ → Token
  char : ℕ → List ℕ → Token

abbrev pub digit_value : ℕ → ℕ
digit_value x =
    if leb 48 x && ltb x 58
    then x - 48
    else if leb 97 x && ltb x 103
    then x - 87
    else if leb 65 x && ltb x 71
    then x - 55
    else 16

abbrev pub four_digits : List ℕ → Token
four_digits (a ∷ b ∷ c ∷ d ∷ more) =
    let v = ((digit_value a * 16 + digit_value b) * 16 + digit_value c) * 16 + digit_value d in
    let digits =
      ltb (digit_value a) 16
      && ltb (digit_value b) 16
      && ltb (digit_value c) 16
      && ltb (digit_value d) 16 in
    if digits && ltb v 128 then char v more else bad
four_digits _ = bad

abbrev pub escaped : List ℕ → Token
escaped [] = bad
escaped (e ∷ more) =
    if e == 34 || e == 92 || e == 47
    then char e more
    else if e == 110
    then char 10 more
    else if e == 114
    then char 13 more
    else if e == 116
    then char 9 more
    else if e == 98
    then char 8 more
    else if e == 102
    then char 12 more
    else if e == 117
    then four_digits more
    else bad

unfoldable pub token : List ℕ → Token
token [] = bad
token (c ∷ more) =
    if c == 34
    then closed more
    else if c == 92
    then escaped more
    else if ltb c 32
    then bad
    else char c more

abbrev pub before : ℕ → Option (List ℕ × List ℕ) → Option (List ℕ × List ℕ)
before c none = none
before c (some (cs, more)) = some (c ∷ cs, more)

unfoldable pub read_body : ℕ → List ℕ → Option (List ℕ × List ℕ)
unfolding token
read_body zero l = none
read_body (suc fuel) l = elim (token l) [
  | bad ↦ none
  | closed more ↦ some ([], more)
  | char c more ↦ before c (read_body fuel more)
]

-- The string at the front of a text, and the text behind it.
unfoldable pub read_string : List ℕ → Option (List ℕ × List ℕ)
unfolding read_body
read_string [] = none
read_string (c ∷ l) = if c == 34 then read_body (length l) l else none
