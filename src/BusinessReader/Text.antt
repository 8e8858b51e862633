-- ===== src/BusinessReader/Text.antt =====
-- A string that `json_escape` of the representation wrote is read back as it was.
use network_service.Prelude.{
  ltb, ℕ, ◌<◌, ◌≤◌, ◌≢◌, ◌/◌, ◌%◌, ◌≡◌, ◌∙◌, refl, ap, [], ◌∷◌, ◌++◌, append_assoc, some, arith,
  Bytes, inl, inr, Bool-cases,
}
use network_service.Representation.{hex_digit, escape_char, json_escape}
use network_service.BusinessReader.{
  plain, hex, append_utf8, hex_value, string_step, string_chars, prefix,
}

hex_value-hex_digit : (n : ℕ) → n < 16 → hex_value (hex_digit n) ≡ some n
unfolding hex_value
hex_value-hex_digit n h = ground arith

-- A control character without a short escape is written as `\u00` and two digits.
string_chars-unit :
    (c : ℕ) (t : Bytes)
    → c < 32
    → string_chars (hex 4 0) (b'0' ∷ b'0' ∷ hex_digit (c / 16 % 16) ∷ hex_digit (c % 16) ∷ t)
      ≡ prefix (c ∷ []) (string_chars plain t)
unfolding string_chars string_step append_utf8
string_chars-unit c t h = ground (
  arith,
  hex_value-hex_digit 0 (omega arith),
  hex_value-hex_digit (c / 16 % 16) (omega arith),
  hex_value-hex_digit (c % 16) (omega arith),
)

string_chars-escape :
    (c : ℕ) (t : Bytes)
    → string_chars plain (escape_char c ++ t) ≡ prefix (c ∷ []) (string_chars plain t)
unfolding string_chars string_step escape_char
string_chars-escape c t = elim (Bool-cases (ltb c 32)) [
  | inl e ↦ ground (arith, string_chars-unit c t (ground (arith, e)))
  | inr e ↦ ground arith
]

pub string_chars-json_escape :
    (s rest : Bytes) → string_chars plain (json_escape s ++ (b'"' ∷ rest)) ≡ some (s, rest)
unfolding json_escape string_chars string_step
string_chars-json_escape [] rest = refl
string_chars-json_escape (c ∷ s) rest =
    ap (string_chars plain) (append_assoc (escape_char c) (json_escape s) (b'"' ∷ rest))
    ∙ string_chars-escape c (json_escape s ++ (b'"' ∷ rest))
    ∙ ap (prefix (c ∷ [])) (string_chars-json_escape s rest)

-- A name that needs no escape.
abbrev pub IsPlain : Bytes → Type 0
IsPlain [] = Unit
IsPlain (c ∷ s) = (32 ≤ c) × (c ≢ b'"') × (c ≢ b'\\') × IsPlain s

pub string_chars-plain :
    (s rest : Bytes) → IsPlain s → string_chars plain (s ++ (b'"' ∷ rest)) ≡ some (s, rest)
unfolding string_chars string_step
string_chars-plain [] rest h = refl
string_chars-plain (c ∷ s) rest (a, b, d, h) = ground (arith, a, b, d, string_chars-plain s rest h)
