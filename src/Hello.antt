-- ===== src/Hello.antt =====
-- `parse_hello_versions` of src/ipc/network_ipc_v1_session.cpp: the version range in a HELLO.
pub mod Parsing
use network_service.Prelude.{
  ℕ, zero, suc, Bool, true, false, List, [], ◌∷◌, Option, none, some, leb, if◌then◌else◌, length,
  is_empty, Bytes, codes, text_eq,
}
use network_service.Json.{skip_ws, expect, starts_with, parse_string, parse_uint64, skip_value}

-- `min_version` with `have_min`, and `max_version` with `have_max`.
pub record Versions : Type 0 where
  pub min_version : Option ℕ
  pub max_version : Option ℕ

-- A parsed number goes where no number has been put before.
abbrev set_once : Option ℕ → ℕ → Option (Option ℕ)
set_once none n = some (some n)
set_once (some m) n = none

-- The value of one member of the object, and what is behind it.
unfoldable pub hello_member : Bytes → Versions → Bytes → Option (Versions × Bytes)
hello_member key v t =
    if text_eq key (codes "minVersion")
    then elim (parse_uint64 t) [
      | none ↦ none
      | some (n, rest) ↦ elim (set_once v.min_version n) [
        | none ↦ none
        | some m ↦ some (record v { min_version = m }, rest)
      ]
    ]
    else if text_eq key (codes "maxVersion")
    then elim (parse_uint64 t) [
      | none ↦ none
      | some (n, rest) ↦ elim (set_once v.max_version n) [
        | none ↦ none
        | some m ↦ some (record v { max_version = m }, rest)
      ]
    ]
    else elim (skip_value t 1) [ none ↦ none | some rest ↦ some (v, rest) ]

-- One member: its key, the colon and the value.
unfoldable pub hello_pair : Versions → Bytes → Option (Versions × Bytes)
unfolding hello_member
hello_pair v t = elim (parse_string t) [
  | none ↦ none
  | some (key, t₁) ↦ elim (expect b':' (skip_ws t₁)) [
    | none ↦ none
    | some t₂ ↦ hello_member key v (skip_ws t₂)
  ]
]

-- The loop over the members. Each round takes at least one character, so the length of the text is
-- fuel enough.
unfoldable pub hello_loop : ℕ → Versions → Bytes → Option (Versions × Bytes)
hello_loop zero v t = none
hello_loop (suc fuel) v t = elim (hello_pair v t) [
  | none ↦ none
  | some (v', t₁) ↦ elim (expect b'}' (skip_ws t₁)) [
    | some t₂ ↦ some (v', t₂)
    | none ↦ elim (expect b',' (skip_ws t₁)) [
      | none ↦ none
      | some t₂ ↦ hello_loop fuel v' (skip_ws t₂)
    ]
  ]
]

-- Nothing may follow but spaces; both versions must be there, and in order.
unfoldable pub hello_end : Option (Versions × Bytes) → Option (ℕ × ℕ)
hello_end none = none
hello_end (some (v, t)) = elim v.min_version [
  | none ↦ none
  | some lo ↦ elim v.max_version [
    | none ↦ none
    | some hi ↦ if is_empty (skip_ws t) then if leb lo hi then some (lo, hi) else none else none
  ]
]

unfoldable pub parse_hello_versions : Bytes → Option (ℕ × ℕ)
unfolding hello_loop hello_end
parse_hello_versions text = elim (expect b'{' (skip_ws text)) [
  | none ↦ none
  | some t ↦
      let members = hello_end (
        hello_loop (suc (length (skip_ws t))) (record { min_version = none; max_version = none })
          (skip_ws t)) in
      if starts_with b'}' (skip_ws t) then none else members
]
