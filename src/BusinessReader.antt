-- ===== src/BusinessReader.antt =====
-- `JsonReader` and the readers of parameters in src/ipc/network_ipc_v1_business_dispatch.cpp. A
-- position in the text is the text from there on, and `none` is false. What the blanks and the
-- parts of a number share with the scanner of the session is taken from there.
pub mod Text
pub mod Scan
pub mod Members
use network_service.Prelude.{
  ℕ, zero, suc, ◌+◌, ◌-◌, ◌*◌, ◌/◌, ◌%◌, Bool, true, false, not, ◌&&◌, ◌||◌, [], ◌∷◌, ◌++◌, Option,
  none, some, ltb, leb, ◌==◌, if◌then◌else◌, is_empty, length, take, Bytes, codes, text_eq,
}
use network_service.Types.{RoutePolicy, ethernet_preferred, wifi_preferred, wifi_only}
use network_service.Json.{
  is_digit, unescape, skip_ws, skip_digits, skip_fraction, skip_exponent, skip_minus, skip_literal,
  expect, starts_with, k_max_json_depth, ◌>>=◌,
}
use mathlib.Core.Option

-- The bytes of a code point, unless it is a surrogate or too large.
unfoldable pub append_utf8 : ℕ → Option Bytes
append_utf8 cp =
    if ltb 0x10ffff cp || (leb 0xd800 cp && leb cp 0xdfff)
    then none
    else if leb cp 0x7f
    then some (cp ∷ [])
    else if leb cp 0x7ff
    then some ((0xc0 + cp / 64) ∷ (0x80 + cp % 64) ∷ [])
    else if leb cp 0xffff
    then some ((0xe0 + cp / 4096) ∷ (0x80 + cp / 64 % 64) ∷ (0x80 + cp % 64) ∷ [])
    else some (
        (0xf0 + cp / 262144)
        ∷ (0x80 + cp / 4096 % 64)
        ∷ (0x80 + cp / 64 % 64)
        ∷ (0x80 + cp % 64)
        ∷ [])

unfoldable pub hex_value : ℕ → Option ℕ
hex_value c =
    if leb b'0' c && leb c b'9'
    then some (c - b'0')
    else if leb b'a' c && leb c b'f'
    then some (c - b'a' + 10)
    else if leb b'A' c && leb c b'F'
    then some (c - b'A' + 10)
    else none

-- Where `parse_string` stands: between characters; behind a backslash; with so many digits of
-- `\\u` still to come and the value so far; in front of the backslash, the `u` or the digits of the
-- second half of a pair, whose first half is kept.
pub data StringMode : Type 0 where
  plain escape : StringMode
  hex : ℕ → ℕ → StringMode
  low_mark low_u : ℕ → StringMode
  low_hex : ℕ → ℕ → ℕ → StringMode

-- What one character does: end the string, refuse it, go on, or append bytes and go on.
pub data StringStep : Type 0 where
  close refuse : StringStep
  go : StringMode → StringStep
  put : Bytes → StringMode → StringStep

abbrev pub put_code : ℕ → StringStep
put_code cp = elim (append_utf8 cp) [ none ↦ refuse | some bytes ↦ put bytes plain ]

-- Behind the fourth digit of the first value, and of the second.
abbrev pub end_first : ℕ → StringStep
end_first first =
    if leb 0xd800 first && leb first 0xdbff then go (low_mark first) else put_code first

abbrev pub end_second : ℕ → ℕ → StringStep
end_second first second =
    if ltb second 0xdc00 || ltb 0xdfff second
    then refuse
    else put_code (0x10000 + (first - 0xd800) * 1024 + (second - 0xdc00))

unfoldable pub string_step : StringMode → ℕ → StringStep
unfolding append_utf8 hex_value unescape
string_step plain c =
    if c == b'"'
    then close
    else if ltb c 0x20
    then refuse
    else if not (c == b'\\')
    then put (c ∷ []) plain
    else go escape
string_step escape e =
    if e == b'u'
    then go (hex 4 0)
    else elim (unescape e) [ none ↦ refuse | some c ↦ put (c ∷ []) plain ]
string_step (hex n value) c = elim (hex_value c) [
  | none ↦ refuse
  | some h ↦ if leb n 1 then end_first (value * 16 + h) else go (hex (n - 1) (value * 16 + h))
]
string_step (low_mark first) c = if c == b'\\' then go (low_u first) else refuse
string_step (low_u first) c = if c == b'u' then go (low_hex first 4 0) else refuse
string_step (low_hex first n value) c = elim (hex_value c) [
  | none ↦ refuse
  | some h ↦
      if leb n 1
      then end_second first (value * 16 + h)
      else go (low_hex first (n - 1) (value * 16 + h))
]

abbrev pub prefix : Bytes → Option (Bytes × Bytes) → Option (Bytes × Bytes)
prefix bytes none = none
prefix bytes (some (value, rest)) = some (bytes ++ value, rest)

unfoldable pub string_chars : StringMode → Bytes → Option (Bytes × Bytes)
unfolding string_step
string_chars m [] = none
string_chars m (c ∷ t) = elim (string_step m c) [
  | close ↦ some ([], t)
  | refuse ↦ none
  | go m' ↦ string_chars m' t
  | put bytes m' ↦ prefix bytes (string_chars m' t)
]

unfoldable pub parse_string : Bytes → Option (Bytes × Bytes)
parse_string [] = none
parse_string (c ∷ t) = if c == b'"' then string_chars plain t else none

unfoldable pub skip_string : Bytes → Option Bytes
skip_string t = elim (parse_string t) [ none ↦ none | some (value, rest) ↦ some rest ]

abbrev pub digit_ahead : Bytes → Bool
digit_ahead [] = false
digit_ahead (c ∷ t) = is_digit c

unfoldable pub skip_integer : Bytes → Option Bytes
unfolding skip_digits
skip_integer [] = none
skip_integer (c ∷ t) =
    if c == b'0'
    then (if digit_ahead t then none else some t)
    else if not (is_digit c)
    then none
    else some (skip_digits (c ∷ t))

unfoldable pub skip_number : Bytes → Option Bytes
unfolding skip_integer skip_fraction skip_exponent skip_minus
skip_number t = do t₁ ← skip_integer (skip_minus t); t₂ ← skip_fraction t₁; skip_exponent t₂

-- Behind an element: the closing character ends, a comma goes on with `next`.
abbrev pub separated : ℕ → (Bytes → Option Bytes) → Bytes → Option Bytes
separated closing next t = elim (expect closing (skip_ws t)) as (λ _. Option Bytes) [
  | some u ↦ some u
  | none ↦ elim (expect b',' (skip_ws t)) as (λ _. Option Bytes) [
    | none ↦ none
    | some u ↦ next (skip_ws u)
  ]
]

-- The loops of `skip_array` and `skip_object`, with `read` for `skip_value` one level down; `Scan`
-- shows that one unit of fuel for each character and one more is enough.
unfoldable pub skip_items : (Bytes → Option Bytes) → ℕ → Bytes → Option Bytes
unfolding skip_ws expect
skip_items read zero t = none
skip_items read (suc fuel) t = elim (read t) as (λ _. Option Bytes) [
  | none ↦ none
  | some u ↦ separated b']' (skip_items read fuel) u
]

unfoldable pub skip_members : (Bytes → Option Bytes) → ℕ → Bytes → Option Bytes
unfolding skip_ws expect skip_string
skip_members read zero t = none
skip_members read (suc fuel) t = elim (skip_string t) as (λ _. Option Bytes) [
  | none ↦ none
  | some u ↦ elim (expect b':' (skip_ws u)) as (λ _. Option Bytes) [
    | none ↦ none
    | some v ↦ elim (read (skip_ws v)) as (λ _. Option Bytes) [
      | none ↦ none
      | some w ↦ separated b'}' (skip_members read fuel) w
    ]
  ]
]

-- Behind the opening character: an empty array or object, or the loop.
abbrev pub unless_closed : ℕ → (ℕ → Bytes → Option Bytes) → Bytes → Option Bytes
unless_closed closing loop t = elim (expect closing (skip_ws t)) as (λ _. Option Bytes) [
  | some u ↦ some u
  | none ↦ loop (suc (length t)) (skip_ws t)
]

-- `skip_value(depth)`, with `kMaxJsonDepth + 1 - depth` for the depth.
unfoldable pub skip_value : ℕ → Bytes → Option Bytes
unfolding skip_ws skip_string skip_literal skip_number skip_items skip_members expect
skip_value zero t = none
skip_value (suc left) [] = none
skip_value (suc left) (c ∷ t) =
    if c == b'{'
    then unless_closed b'}' (skip_members (skip_value left)) t
    else if c == b'['
    then unless_closed b']' (skip_items (skip_value left)) t
    else if c == b'"'
    then skip_string (c ∷ t)
    else if c == b't'
    then skip_literal (codes "true") (c ∷ t)
    else if c == b'f'
    then skip_literal (codes "false") (c ∷ t)
    else if c == b'n'
    then skip_literal (codes "null") (c ∷ t)
    else skip_number (c ∷ t)

abbrev pub levels : ℕ
levels = suc k_max_json_depth

-- What was read up to `rest`.
abbrev pub read_up_to : Bytes → Bytes → Bytes
read_up_to t rest = take (length t - length rest) t

-- `if (key == wanted)`: the text of the member is kept, unless there is one already.
abbrev pub note_member : Bytes → Bytes → Bytes → Option Bytes → Option (Option Bytes)
note_member wanted key raw found =
    if not (text_eq key wanted)
    then some found
    else elim found as (λ _. Option (Option Bytes)) [ some other ↦ none | none ↦ some (some raw) ]

-- Behind a member of the object that is searched.
abbrev pub next_member :
    (Option Bytes → Bytes → Option (Option Bytes × Bytes))
    → Bytes
    → Option Bytes
    → Option (Option Bytes × Bytes)
next_member next t found = elim (expect b'}' (skip_ws t)) as (λ _. Option (Option Bytes × Bytes)) [
  | some u ↦ some (found, u)
  | none ↦ elim (expect b',' (skip_ws t)) as (λ _. Option (Option Bytes × Bytes)) [
    | none ↦ none
    | some u ↦ next found (skip_ws u)
  ]
]

-- The loop of `find_member`: what was found so far, and the end of the text behind the object.
unfoldable pub find_loop : Bytes → ℕ → Option Bytes → Bytes → Option (Option Bytes × Bytes)
unfolding skip_ws expect parse_string skip_value
find_loop wanted zero found t = none
find_loop wanted (suc fuel) found t = do
  (key, u) ← parse_string t
  v ← expect b':' (skip_ws u)
  w ← skip_value levels (skip_ws v)
  now ← note_member wanted key (read_up_to (skip_ws v) w) found
  next_member (find_loop wanted fuel) w now

unfoldable pub find_member : Bytes → Bytes → Option Bytes
unfolding find_loop
find_member wanted t = do
  u ← expect b'{' (skip_ws t)
  elim (expect b'}' (skip_ws u)) as (λ _. Option Bytes) [
    | some v ↦ none
    | none ↦ do
      (found, v) ← find_loop wanted (suc (length u)) none (skip_ws u)
      if is_empty (skip_ws v) then found else none
  ]

unfoldable pub parse_full_string : Bytes → Option Bytes
unfolding skip_ws parse_string
parse_full_string t = do
  (value, rest) ← parse_string (skip_ws t)
  if is_empty (skip_ws rest) then some value else none

unfoldable pub read_string : Bytes → Bytes → Option Bytes
unfolding find_member parse_full_string
read_string object key = do raw ← find_member key object; parse_full_string raw

unfoldable pub read_bool : Bytes → Bytes → Option Bool
unfolding find_member
read_bool object key = do
  raw ← find_member key object
  if text_eq raw (codes "true")
      then some true
      else if text_eq raw (codes "false")
      then some false
      else none

unfoldable pub parse_product_route_policy : Bytes → Option RoutePolicy
parse_product_route_policy value =
    if text_eq value (codes "ethernet_preferred")
    then some ethernet_preferred
    else if text_eq value (codes "wifi_preferred")
    then some wifi_preferred
    else if text_eq value (codes "wifi_only")
    then some wifi_only
    else none
