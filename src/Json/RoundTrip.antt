-- ===== src/Json/RoundTrip.antt =====
-- What escape_quoted writes is read back.
use mathlib.Core.List.{append_assoc}
use gempba.Base.{
  ℕ, zero, suc, ◌+◌, ◌*◌, ◌/◌, ◌%◌, ◌<◌, ◌≤◌, ◌≡◌, refl, sym, ◌∙◌, ap, ◌==◌, ==_iff, ltb, true,
  Bool-cases, List, [], ◌∷◌, ◌++◌, Option, none, some, length, length-append, inl, inr, arith,
}
use gempba.Json.Strings.{
  hex_digit, escape_char, escape_body, escape_quoted, Token, bad, closed, char, digit_value,
  four_digits, token, before, read_body, read_string,
}

digit_value-hex_digit : (d : ℕ) → d < 16 → digit_value (hex_digit d) ≡ d
digit_value-hex_digit d h = ground arith

control_lem :
    (c : ℕ) (more : List ℕ)
    → c < 32
    → four_digits (48 ∷ 48 ∷ hex_digit (c / 16) ∷ hex_digit (c % 16) ∷ more) ≡ char c more
control_lem c more h =
    let high = digit_value-hex_digit (c / 16) (omega arith) in
    let low = digit_value-hex_digit (c % 16) (omega arith) in
    let value : ((0 * 16 + 0) * 16 + c / 16) * 16 + c % 16 ≡ c = omega arith in
    let first : ltb (c / 16) 16 ≡ true = ground arith in
    let second : ltb (c % 16) 16 ≡ true = ground arith in
    let small : ltb (((0 * 16 + 0) * 16 + c / 16) * 16 + c % 16) 128 ≡ true = ground arith in
    rw (high, low, first, second, small) (ap (λ n. char n more) value)

char_of : (c n : ℕ) (more : List ℕ) → (c == n) ≡ true → char n more ≡ char c more
char_of c n more e = ap (λ m. char m more) (sym ((==_iff c n).0 e))

token-escape_char : (c : ℕ) (more : List ℕ) → token (escape_char c ++ more) ≡ char c more
unfolding token escape_char
token-escape_char c more = elim (Bool-cases (c == 34)) [
  | inl quote ↦ rw quote (char_of c 34 more quote)
  | inr not_quote ↦ elim (Bool-cases (c == 92)) [
    | inl backslash ↦ rw (not_quote, backslash) (char_of c 92 more backslash)
    | inr not_backslash ↦ elim (Bool-cases (c == 10)) [
      | inl newline ↦ rw (not_quote, not_backslash, newline) (char_of c 10 more newline)
      | inr not_newline ↦ elim (Bool-cases (c == 13)) [
        | inl return ↦ rw (not_quote, not_backslash, not_newline, return) (char_of c 13 more return)
        | inr not_return ↦ elim (Bool-cases (c == 9)) [
          | inl tab ↦
              rw (not_quote, not_backslash, not_newline, not_return, tab) (char_of c 9 more tab)
          | inr not_tab ↦ elim (Bool-cases (ltb c 32)) [
            | inl control ↦
                rw (not_quote, not_backslash, not_newline, not_return, not_tab, control)
                  (control_lem c more (ground arith))
            | inr plain ↦
                rw (not_quote, not_backslash, not_newline, not_return, not_tab, plain)
                  (rw (not_quote, not_backslash, plain) refl)
          ]
        ]
      ]
    ]
  ]
]

abbrev next : ℕ → Token → Option (List ℕ × List ℕ)
next fuel bad = none
next fuel (closed more) = some ([], more)
next fuel (char c more) = before c (read_body fuel more)

read_next : (fuel : ℕ) (l : List ℕ) → read_body (suc fuel) l ≡ next fuel (token l)
unfolding read_body
read_next fuel l =
    elim (token l)
      as (λ t.
        elim t as (λ u. Option (List ℕ × List ℕ)) [
          | bad ↦ none
          | closed more ↦ some ([], more)
          | char c more ↦ before c (read_body fuel more)
        ]
        ≡ next fuel t) [ bad ↦ refl | closed more ↦ refl | char c more ↦ refl ]

body_lem :
    (cs more : List ℕ) (fuel : ℕ)
    → length cs < fuel
    → read_body fuel (escape_body cs ++ 34 ∷ more) ≡ some (cs, more)
unfolding read_body escape_body
body_lem cs more zero h = ground arith
body_lem [] more (suc fuel) h = refl
body_lem (c ∷ cs) more (suc fuel) h =
    ap (read_body (suc fuel)) (append_assoc (escape_char c) (escape_body cs) (34 ∷ more))
    ∙ read_next fuel (escape_char c ++ (escape_body cs ++ 34 ∷ more))
    ∙ ap (next fuel) (token-escape_char c (escape_body cs ++ 34 ∷ more))
    ∙ ap (before c) (body_lem cs more fuel (omega arith))

length-escape_char : (c : ℕ) → 0 < length (escape_char c)
unfolding escape_char
length-escape_char c = ground arith

length-escape_body : (cs : List ℕ) → length cs ≤ length (escape_body cs)
unfolding escape_body
length-escape_body [] = omega arith
length-escape_body (c ∷ cs) = omega (
  arith,
  length-append (escape_char c) (escape_body cs),
  length-escape_char c,
  length-escape_body cs,
)

-- Whatever the bytes of a string are, and whatever text follows: a JSON reader takes the quoted string from
-- the front of the text, gets just these bytes, and goes on with the text that follows.
pub read_string-escape_quoted :
    (cs more : List ℕ) → read_string (escape_quoted cs ++ more) ≡ some (cs, more)
unfolding read_string escape_quoted
read_string-escape_quoted cs more =
    let e = append_assoc (escape_body cs) (34 ∷ []) more in
    rw e (
      body_lem cs more (length (escape_body cs ++ 34 ∷ more))
        (omega (arith, length-append (escape_body cs) (34 ∷ more), length-escape_body cs)))
