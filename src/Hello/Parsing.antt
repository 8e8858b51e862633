-- ===== src/Hello/Parsing.antt =====
-- The fuel of the HELLO parser is enough, and the HELLO that a client prints is read back.
use network_service.Prelude.{
  ℕ, suc, ◌≤◌, ◌≡◌, refl, ap, ◌∙◌, inl, false, [], ◌∷◌, ◌++◌, none, some, arith, length, Bytes,
  codes, decimal, leb, is_empty, digits_onto, text_eq, if◌then◌else◌,
}
use network_service.Rebase.{u64_max}
use network_service.Json.{skip_ws, expect, parse_string, string_chars, string_step}
use network_service.Json.Number.{
  AreDigits, NoDigit, digits_onto-AreDigits, digits_onto-nonempty, parse_uint64-decimal,
}
use network_service.Hello.{
  Versions, hello_member, hello_pair, hello_loop, hello_end, parse_hello_versions,
}

-- `{"minVersion":<a>,"maxVersion":<b>}`.
abbrev pub hello_json : ℕ → ℕ → Bytes
hello_json a b =
    codes "{\"minVersion\":"
    ++ (decimal a ++ (codes ",\"maxVersion\":" ++ (decimal b ++ codes "}")))

skip_ws-digits :
    (ds rest : Bytes) → is_empty ds ≡ false → AreDigits ds → skip_ws (ds ++ rest) ≡ ds ++ rest
unfolding skip_ws
skip_ws-digits [] rest h a = cc
skip_ws-digits (c ∷ ds) rest h a = ground (arith, a.0)

skip_ws-decimal : (n : ℕ) (rest : Bytes) → skip_ws (decimal n ++ rest) ≡ decimal n ++ rest
unfolding decimal
skip_ws-decimal n rest =
    skip_ws-digits (digits_onto (suc n) n []) rest
      (digits_onto-nonempty (suc n) n [] (inl (omega arith)))
      (digits_onto-AreDigits (suc n) n [] tt)

hello_member-min :
    (v : Versions) (n : ℕ) (rest : Bytes)
    → n ≤ u64_max
    → v.min_version ≡ none
    → NoDigit rest
    → hello_member (codes "minVersion") v (decimal n ++ rest)
      ≡ some (record v { min_version = some n }, rest)
unfolding hello_member text_eq
hello_member-min v n rest h e d = ground (arith, parse_uint64-decimal n rest h d)

hello_member-max :
    (v : Versions) (n : ℕ) (rest : Bytes)
    → n ≤ u64_max
    → v.max_version ≡ none
    → NoDigit rest
    → hello_member (codes "maxVersion") v (decimal n ++ rest)
      ≡ some (record v { max_version = some n }, rest)
unfolding hello_member text_eq
hello_member-max v n rest h e d = ground (arith, parse_uint64-decimal n rest h d)

hello_pair-min :
    (v : Versions) (n : ℕ) (rest : Bytes)
    → n ≤ u64_max
    → v.min_version ≡ none
    → NoDigit rest
    → hello_pair v (codes "\"minVersion\":" ++ (decimal n ++ rest))
      ≡ some (record v { min_version = some n }, rest)
unfolding hello_pair parse_string string_chars string_step expect skip_ws
hello_pair-min v n rest h e d = rw (skip_ws-decimal n rest) (hello_member-min v n rest h e d)

hello_pair-max :
    (v : Versions) (n : ℕ) (rest : Bytes)
    → n ≤ u64_max
    → v.max_version ≡ none
    → NoDigit rest
    → hello_pair v (codes "\"maxVersion\":" ++ (decimal n ++ rest))
      ≡ some (record v { max_version = some n }, rest)
unfolding hello_pair parse_string string_chars string_step expect skip_ws
hello_pair-max v n rest h e d = rw (skip_ws-decimal n rest) (hello_member-max v n rest h e d)

hello_loop-comma :
    (fuel : ℕ) (v v' : Versions) (t u : Bytes)
    → hello_pair v t ≡ some (v', b',' ∷ u)
    → hello_loop (suc fuel) v t ≡ hello_loop fuel v' (skip_ws u)
unfolding hello_loop skip_ws expect
hello_loop-comma fuel v v' t u h = rw (h, hello_loop)

hello_loop-close :
    (fuel : ℕ) (v v' : Versions) (t u : Bytes)
    → hello_pair v t ≡ some (v', b'}' ∷ u)
    → hello_loop (suc fuel) v t ≡ some (v', u)
unfolding hello_loop skip_ws expect
hello_loop-close fuel v v' t u h = rw (h, hello_loop)

-- The loop over the two members.
hello_loop-members :
    (fuel a b : ℕ)
    → a ≤ u64_max
    → b ≤ u64_max
    → hello_loop
        (suc (suc fuel))
        (record { min_version = none; max_version = none })
        (codes "\"minVersion\":"
          ++ (decimal a ++ (codes ",\"maxVersion\":" ++ (decimal b ++ codes "}"))))
      ≡ some (record { min_version = some a; max_version = some b }, [])
unfolding skip_ws
hello_loop-members fuel a b ha hb =
    hello_loop-comma (suc fuel) (record { min_version = none; max_version = none })
      (record { min_version = some a; max_version = none }) _ _
      (hello_pair-min _ a (codes ",\"maxVersion\":" ++ (decimal b ++ codes "}")) ha refl refl)
    ∙ hello_loop-close fuel (record { min_version = some a; max_version = none })
        (record { min_version = some a; max_version = some b }) _ _
        (hello_pair-max _ b (codes "}") hb refl refl)

-- A HELLO with a range of 64-bit numbers is read back: the range is returned if it is in order,
-- and refused otherwise.
pub parse_hello_versions-hello_json :
    (a b : ℕ)
    → a ≤ u64_max
    → b ≤ u64_max
    → parse_hello_versions (hello_json a b) ≡ (if leb a b then some (a, b) else none)
unfolding parse_hello_versions hello_end skip_ws expect
parse_hello_versions-hello_json a b ha hb =
    ap hello_end (
      hello_loop-members
        (length (
          codes "minVersion\":"
          ++ (decimal a ++ (codes ",\"maxVersion\":" ++ (decimal b ++ codes "}")))))
        a b ha hb)
    ∙ refl
