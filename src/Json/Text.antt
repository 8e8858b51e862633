-- ===== src/Json/Text.antt =====
-- A string that `json_escape` wrote is read back by `parse_string`.
use network_service.Prelude.{
  ltb, ℕ, ◌≡◌, ◌∙◌, refl, ap, [], ◌∷◌, ◌++◌, append_assoc, map, some, arith, Bytes, ◌==◌, ◌||◌,
  ◌&&◌, not, if◌then◌else◌,
}
use network_service.Event.{escape_char, json_escape}
use network_service.Json.{plain, string_step, string_chars, parse_string, prepend}

-- What is left of a character: a control character that has no escape of its own is a `?`.
abbrev pub shown : ℕ → ℕ
shown c =
    if ltb c 0x20 && not (c == 0x08 || c == 0x09 || c == 0x0a || c == 0x0c || c == 0x0d)
    then b'?'
    else c

string_chars-escape_char :
    (c : ℕ) (t : Bytes)
    → string_chars plain (escape_char c ++ t) ≡ prepend (shown c) (string_chars plain t)
unfolding string_chars string_step escape_char
string_chars-escape_char c t = ground arith

string_chars-json_escape :
    (s rest : Bytes)
    → string_chars plain (json_escape s ++ (b'"' ∷ rest)) ≡ some (map shown s, rest)
unfolding json_escape string_chars string_step
string_chars-json_escape [] rest = refl
string_chars-json_escape (c ∷ s) rest =
    ap (string_chars plain) (append_assoc (escape_char c) (json_escape s) (b'"' ∷ rest))
    ∙ string_chars-escape_char c (json_escape s ++ (b'"' ∷ rest))
    ∙ ap (prepend (shown c)) (string_chars-json_escape s rest)

-- The quoted escape of any text is read back as that text, with `?` for each control character
-- that has no escape of its own, and nothing behind the closing quote is touched.
pub parse_string-json_escape :
    (s rest : Bytes)
    → parse_string (b'"' ∷ (json_escape s ++ (b'"' ∷ rest))) ≡ some (map shown s, rest)
unfolding parse_string
parse_string-json_escape s rest = string_chars-json_escape s rest
