-- ===== src/Json.antt =====
-- The JSON scanner at the top of src/ipc/network_ipc_v1_session.cpp. The source walks a position
-- through the text; here a function takes the text from the position on and returns what is behind
-- it, `none` where the source returns false.
pub mod Text
pub mod Number
pub mod Fuel
pub mod Grammar
pub mod Derivation
pub mod Suffix
pub mod Scan
pub mod Depth
use network_service.Prelude.{
  ℕ, zero, suc, ◌+◌, ◌-◌, ◌*◌, ◌/◌, Bool, true, false, not, ◌&&◌, ◌||◌, List, [], ◌∷◌, Option, none,
  some, ltb, leb, ◌==◌, if◌then◌else◌, length, Bytes, codes,
}
use network_service.Rebase.{u64_max}
use mathlib.Core.Option

abbrev pub k_max_json_depth : ℕ
k_max_json_depth = 16

-- `std::isspace`, `std::isdigit` and `std::isxdigit` of the C locale.
abbrev pub is_space : ℕ → Bool
is_space c = c == 0x20 || (leb 0x09 c && leb c 0x0d)

abbrev pub is_digit : ℕ → Bool
is_digit c = leb b'0' c && leb c b'9'

abbrev pub is_xdigit : ℕ → Bool
is_xdigit c = is_digit c || (leb b'a' c && leb c b'f') || (leb b'A' c && leb c b'F')

unfoldable pub skip_ws : Bytes → Bytes
skip_ws [] = []
skip_ws (c ∷ t) = let rest = skip_ws t in if is_space c then rest else c ∷ t

-- The character that an escape other than `\u` stands for.
unfoldable pub unescape : ℕ → Option ℕ
unescape e =
    if e == b'"' || e == b'\\' || e == b'/'
    then some e
    else if e == b'b'
    then some 0x08
    else if e == b'f'
    then some 0x0c
    else if e == b'n'
    then some b'\n'
    else if e == b'r'
    then some b'\r'
    else if e == b't'
    then some b'\t'
    else none

-- A character in front of what the rest of a string gives.
abbrev pub prepend : ℕ → Option (Bytes × Bytes) → Option (Bytes × Bytes)
prepend c none = none
prepend c (some (value, rest)) = some (c ∷ value, rest)

-- Where the loop of `parse_string` stands: between characters, behind a backslash, or with so many
-- hexadecimal digits of `\\u` still to come.
pub data StringMode : Type 0 where
  plain escape : StringMode
  hex : ℕ → StringMode

-- What one character does: end the string, refuse it, go on, or append a character and go on.
pub data StringStep : Type 0 where
  close refuse : StringStep
  go : StringMode → StringStep
  put : ℕ → StringMode → StringStep

unfoldable pub string_step : StringMode → ℕ → StringStep
unfolding unescape
string_step plain ch =
    if ch == b'"'
    then close
    else if ltb ch 0x20
    then refuse
    else if not (ch == b'\\')
    then put ch plain
    else go escape
string_step escape e =
    if e == b'u' then go (hex 4) else elim (unescape e) [ none ↦ refuse | some c ↦ put c plain ]
string_step (hex n) ch =
    if not (is_xdigit ch) then refuse else if leb n 1 then put b'?' plain else go (hex (n - 1))

-- The value and what is behind the closing quote.
unfoldable pub string_chars : StringMode → Bytes → Option (Bytes × Bytes)
unfolding string_step
string_chars m [] = none
string_chars m (ch ∷ t) = elim (string_step m ch) [
  | close ↦ some ([], t)
  | refuse ↦ none
  | go m' ↦ string_chars m' t
  | put c m' ↦ prepend c (string_chars m' t)
]

unfoldable pub parse_string : Bytes → Option (Bytes × Bytes)
parse_string [] = none
parse_string (c ∷ t) = if c == b'"' then string_chars plain t else none

-- What is behind a string, where its value is not asked for.
unfoldable pub skip_string : Bytes → Option Bytes
skip_string t = elim (parse_string t) [ none ↦ none | some (value, rest) ↦ some rest ]

-- `while (pos < text.size() && isdigit(text[pos])) ++pos`.
unfoldable pub skip_digits : Bytes → Bytes
skip_digits [] = []
skip_digits (c ∷ t) = let rest = skip_digits t in if is_digit c then rest else c ∷ t

-- At least one digit: `pos == start` behind the loop is false.
unfoldable pub skip_digits1 : Bytes → Option Bytes
unfolding skip_digits
skip_digits1 [] = none
skip_digits1 (c ∷ t) = if is_digit c then some (skip_digits t) else none

unfoldable pub skip_integer : Bytes → Option Bytes
unfolding skip_digits
skip_integer [] = none
skip_integer (c ∷ t) =
    if c == b'0'
    then some t
    else if ltb c b'1' || ltb b'9' c
    then none
    else some (skip_digits (c ∷ t))

unfoldable pub skip_fraction : Bytes → Option Bytes
unfolding skip_digits1
skip_fraction [] = some []
skip_fraction (c ∷ t) = if c == b'.' then skip_digits1 t else some (c ∷ t)

unfoldable pub skip_sign : Bytes → Bytes
skip_sign [] = []
skip_sign (c ∷ t) = if c == b'+' || c == b'-' then t else c ∷ t

unfoldable pub skip_exponent : Bytes → Option Bytes
unfolding skip_digits1 skip_sign
skip_exponent [] = some []
skip_exponent (c ∷ t) = if c == b'e' || c == b'E' then skip_digits1 (skip_sign t) else some (c ∷ t)

unfoldable pub skip_minus : Bytes → Bytes
skip_minus [] = []
skip_minus (c ∷ t) = if c == b'-' then t else c ∷ t

infixl 5 ◌>>=◌
abbrev pub ◌>>=◌ {ℓ κ} : {A : Type ℓ} {B : Type κ} → Option A → (A → Option B) → Option B
o >>= f = elim o [ none ↦ none | some a ↦ f a ]

-- `pos > start` holds at the end, since the integer part is not empty.
unfoldable pub skip_number : Bytes → Option Bytes
unfolding skip_integer skip_fraction skip_exponent skip_minus
skip_number t = do t₁ ← skip_integer (skip_minus t); t₂ ← skip_fraction t₁; skip_exponent t₂

-- `literal` in front of the text.
unfoldable pub skip_literal : Bytes → Bytes → Option Bytes
skip_literal [] t = some t
skip_literal (l ∷ literal) [] = none
skip_literal (l ∷ literal) (c ∷ t) =
    let rest = skip_literal literal t in if c == l then rest else none

-- The character `c`, and what is behind it.
unfoldable pub expect : ℕ → Bytes → Option Bytes
expect c [] = none
expect c (d ∷ t) = if d == c then some t else none

abbrev pub starts_with : ℕ → Bytes → Bool
starts_with c [] = false
starts_with c (d ∷ t) = d == c

-- The functions that call one another recur on fuel; `Fuel` shows that `json_fuel` is enough.
-- `skip_items` and `skip_members` are the loops of `skip_array` and `skip_object`.
unfoldable mutual
  unfolding skip_ws skip_string skip_number skip_literal expect

  pub skip_value_on : ℕ → Bytes → ℕ → Option Bytes
  skip_value_on zero t depth = none
  skip_value_on (suc fuel) t depth =
      let string = skip_string (skip_ws t) in
      let object = skip_object_on fuel (skip_ws t) depth in
      let array = skip_array_on fuel (skip_ws t) depth in
      if ltb k_max_json_depth depth
      then none
      else if starts_with b'"' (skip_ws t)
      then string
      else if starts_with b'{' (skip_ws t)
      then object
      else if starts_with b'[' (skip_ws t)
      then array
      else if starts_with b't' (skip_ws t)
      then skip_literal (codes "true") (skip_ws t)
      else if starts_with b'f' (skip_ws t)
      then skip_literal (codes "false") (skip_ws t)
      else if starts_with b'n' (skip_ws t)
      then skip_literal (codes "null") (skip_ws t)
      else skip_number (skip_ws t)

  pub skip_array_on : ℕ → Bytes → ℕ → Option Bytes
  skip_array_on zero t depth = none
  skip_array_on (suc fuel) t depth =
      if ltb k_max_json_depth depth then none else elim (expect b'[' t) [
        | none ↦ none
        | some u ↦
            let items = skip_items_on fuel (skip_ws u) depth in
            elim (expect b']' (skip_ws u)) [ some v ↦ some v | none ↦ items ]
      ]

  pub skip_items_on : ℕ → Bytes → ℕ → Option Bytes
  skip_items_on zero t depth = none
  skip_items_on (suc fuel) t depth = elim (skip_value_on fuel t (depth + 1)) [
    | none ↦ none
    | some u ↦ elim (expect b']' (skip_ws u)) [
      | some v ↦ some v
      | none ↦ elim (expect b',' (skip_ws u)) [
        | none ↦ none
        | some v ↦ skip_items_on fuel (skip_ws v) depth
      ]
    ]
  ]

  pub skip_object_on : ℕ → Bytes → ℕ → Option Bytes
  skip_object_on zero t depth = none
  skip_object_on (suc fuel) t depth =
      if ltb k_max_json_depth depth then none else elim (expect b'{' t) [
        | none ↦ none
        | some u ↦
            let members = skip_members_on fuel (skip_ws u) depth in
            elim (expect b'}' (skip_ws u)) [ some v ↦ some v | none ↦ members ]
      ]

  pub skip_members_on : ℕ → Bytes → ℕ → Option Bytes
  skip_members_on zero t depth = none
  skip_members_on (suc fuel) t depth = elim (skip_string t) [
    | none ↦ none
    | some u ↦ elim (expect b':' (skip_ws u)) [
      | none ↦ none
      | some v ↦ elim (skip_value_on fuel (skip_ws v) (depth + 1)) [
        | none ↦ none
        | some w ↦ elim (expect b'}' (skip_ws w)) [
          | some x ↦ some x
          | none ↦ elim (expect b',' (skip_ws w)) [
            | none ↦ none
            | some x ↦ skip_members_on fuel (skip_ws x) depth
          ]
        ]
      ]
    ]
  ]

abbrev pub json_fuel : Bytes → ℕ
json_fuel t = 3 * length t + 3

unfoldable pub skip_value : Bytes → ℕ → Option Bytes
skip_value t depth = skip_value_on (json_fuel t) t depth

-- The loop of `parse_uint64` over the digits: the value so far, `none` once the next digit would
-- take it past the largest `uint64_t`.
unfoldable pub digits_value : ℕ → Bytes → Option (ℕ × Bytes)
digits_value result [] = some (result, [])
digits_value result (c ∷ t) =
    let digit = c - b'0' in
    let next = digits_value (result * 10 + digit) t in
    if not (is_digit c)
    then some (result, c ∷ t)
    else if ltb ((u64_max - digit) / 10) result
    then none
    else next

unfoldable pub parse_uint64 : Bytes → Option (ℕ × Bytes)
parse_uint64 [] = none
parse_uint64 (c ∷ t) = if is_digit c then digits_value 0 (c ∷ t) else none
