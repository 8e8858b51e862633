-- ===== src/Json/Grammar.antt =====
-- The scan of a value without fuel: a finite tree of the calls that the code makes, each with the
-- test by which it ends.
use network_service.Prelude.{
  ℕ, ◌+◌, ◌≡◌, true, false, Option, none, some, ltb, Bytes, codes, if◌then◌else◌,
}
use network_service.Json.{
  skip_string, skip_ws, skip_number, skip_literal, expect, starts_with, k_max_json_depth,
}

-- The function that is called, or the loop that is entered.
pub data Job : Type 0 where
  value array items object members : Job

-- What is neither a string nor has parts.
abbrev pub skip_atom : Bytes → Option Bytes
skip_atom t =
    if starts_with b't' t
    then skip_literal (codes "true") t
    else if starts_with b'f' t
    then skip_literal (codes "false") t
    else if starts_with b'n' t
    then skip_literal (codes "null") t
    else skip_number t

-- `Scans job t depth o`: the job, begun at `t`, ends with `o`, refused or with the text behind.
pub data Scans : Job → Bytes → ℕ → Option Bytes → Type 0 where
  too_deep : (job : Job) (t : Bytes) (d : ℕ) → ltb k_max_json_depth d ≡ true → Scans job t d none
  a_string :
      (t : Bytes) (d : ℕ)
      → ltb k_max_json_depth d ≡ false
      → starts_with b'"' (skip_ws t) ≡ true
      → Scans value t d (skip_string (skip_ws t))
  an_object :
      (t : Bytes) (d : ℕ) (o : Option Bytes)
      → ltb k_max_json_depth d ≡ false
      → starts_with b'{' (skip_ws t) ≡ true
      → Scans object (skip_ws t) d o
      → Scans value t d o
  an_array :
      (t : Bytes) (d : ℕ) (o : Option Bytes)
      → ltb k_max_json_depth d ≡ false
      → starts_with b'[' (skip_ws t) ≡ true
      → Scans array (skip_ws t) d o
      → Scans value t d o
  an_atom :
      (t : Bytes) (d : ℕ)
      → ltb k_max_json_depth d ≡ false
      → starts_with b'"' (skip_ws t) ≡ false
      → starts_with b'{' (skip_ws t) ≡ false
      → starts_with b'[' (skip_ws t) ≡ false
      → Scans value t d (skip_atom (skip_ws t))
  no_bracket : (t : Bytes) (d : ℕ) → expect b'[' t ≡ none → Scans array t d none
  empty_array :
      (t u v : Bytes) (d : ℕ)
      → ltb k_max_json_depth d ≡ false
      → expect b'[' t ≡ some u
      → expect b']' (skip_ws u) ≡ some v
      → Scans array t d (some v)
  array_of :
      (t u : Bytes) (d : ℕ) (o : Option Bytes)
      → ltb k_max_json_depth d ≡ false
      → expect b'[' t ≡ some u
      → expect b']' (skip_ws u) ≡ none
      → Scans items (skip_ws u) d o
      → Scans array t d o
  no_item : (t : Bytes) (d : ℕ) → Scans value t (d + 1) none → Scans items t d none
  last_item :
      (t u v : Bytes) (d : ℕ)
      → Scans value t (d + 1) (some u)
      → expect b']' (skip_ws u) ≡ some v
      → Scans items t d (some v)
  no_item_comma :
      (t u : Bytes) (d : ℕ)
      → Scans value t (d + 1) (some u)
      → expect b']' (skip_ws u) ≡ none
      → expect b',' (skip_ws u) ≡ none
      → Scans items t d none
  more_items :
      (t u v : Bytes) (d : ℕ) (o : Option Bytes)
      → Scans value t (d + 1) (some u)
      → expect b']' (skip_ws u) ≡ none
      → expect b',' (skip_ws u) ≡ some v
      → Scans items (skip_ws v) d o
      → Scans items t d o
  no_brace : (t : Bytes) (d : ℕ) → expect b'{' t ≡ none → Scans object t d none
  empty_object :
      (t u v : Bytes) (d : ℕ)
      → ltb k_max_json_depth d ≡ false
      → expect b'{' t ≡ some u
      → expect b'}' (skip_ws u) ≡ some v
      → Scans object t d (some v)
  object_of :
      (t u : Bytes) (d : ℕ) (o : Option Bytes)
      → ltb k_max_json_depth d ≡ false
      → expect b'{' t ≡ some u
      → expect b'}' (skip_ws u) ≡ none
      → Scans members (skip_ws u) d o
      → Scans object t d o
  no_key : (t : Bytes) (d : ℕ) → skip_string t ≡ none → Scans members t d none
  no_colon :
      (t u : Bytes) (d : ℕ)
      → skip_string t ≡ some u
      → expect b':' (skip_ws u) ≡ none
      → Scans members t d none
  no_value :
      (t u v : Bytes) (d : ℕ)
      → skip_string t ≡ some u
      → expect b':' (skip_ws u) ≡ some v
      → Scans value (skip_ws v) (d + 1) none
      → Scans members t d none
  last_member :
      (t u v x y : Bytes) (d : ℕ)
      → skip_string t ≡ some u
      → expect b':' (skip_ws u) ≡ some v
      → Scans value (skip_ws v) (d + 1) (some x)
      → expect b'}' (skip_ws x) ≡ some y
      → Scans members t d (some y)
  no_member_comma :
      (t u v x : Bytes) (d : ℕ)
      → skip_string t ≡ some u
      → expect b':' (skip_ws u) ≡ some v
      → Scans value (skip_ws v) (d + 1) (some x)
      → expect b'}' (skip_ws x) ≡ none
      → expect b',' (skip_ws x) ≡ none
      → Scans members t d none
  more_members :
      (t u v x y : Bytes) (d : ℕ) (o : Option Bytes)
      → skip_string t ≡ some u
      → expect b':' (skip_ws u) ≡ some v
      → Scans value (skip_ws v) (d + 1) (some x)
      → expect b'}' (skip_ws x) ≡ none
      → expect b',' (skip_ws x) ≡ some y
      → Scans members (skip_ws y) d o
      → Scans members t d o
