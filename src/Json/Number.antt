-- ===== src/Json/Number.antt =====
-- `parse_uint64` reads a number exactly: the value of its digits, or a refusal past 64 bits.
use network_service.Prelude.{
  ltb, leb, ℕ, zero, suc, ◌+◌, ◌*◌, ◌-◌, ◌/◌, ◌%◌, ◌≤◌, ◌<◌, ◌≡◌, ◌⊎◌, refl, ap, ◌∙◌, inl, inr,
  true, false, [], ◌∷◌, ◌++◌, none, some, arith, Bytes, Bool-cases, All, if◌then◌else◌, digits_onto,
  decimal, is_empty,
}
use network_service.Rebase.{u64_max}
use network_service.Json.{is_digit, digits_value, parse_uint64}

-- The number that digits stand for, behind those that gave `acc`.
abbrev pub value_of : ℕ → Bytes → ℕ
value_of acc [] = acc
value_of acc (c ∷ t) = value_of (acc * 10 + (c - b'0')) t

abbrev pub AreDigits : Bytes → Type 0
AreDigits = All (λ c. is_digit c ≡ true)

-- The text does not begin with a digit.
abbrev pub NoDigit : Bytes → Type 0
NoDigit [] = Unit
NoDigit (c ∷ t) = is_digit c ≡ false

value_of-ge : (ds : Bytes) (acc : ℕ) → acc ≤ value_of acc ds
value_of-ge [] acc = omega arith
value_of-ge (c ∷ t) acc = omega (arith, value_of-ge t (acc * 10 + (c - b'0')))

digits_value-done : (rest : Bytes) (r : ℕ) → NoDigit rest → digits_value r rest ≡ some (r, rest)
unfolding digits_value
digits_value-done [] r h = refl
digits_value-done (c ∷ t) r h = rw h

digits_value_lem :
    (ds rest : Bytes) (r : ℕ)
    → AreDigits ds
    → NoDigit rest
    → r ≤ u64_max
    → digits_value r (ds ++ rest)
      ≡ (if leb (value_of r ds) u64_max then some (value_of r ds, rest) else none)
unfolding digits_value
digits_value_lem [] rest r a n h = digits_value-done rest r n ∙ ground arith
digits_value_lem (c ∷ ds) rest r a n h = elim (Bool-cases (ltb ((u64_max - (c - b'0')) / 10) r)) [
  | inl over ↦ ground (arith, a.0, value_of-ge ds (r * 10 + (c - b'0')))
  | inr fits ↦ ground (arith, a.0, digits_value_lem ds rest (r * 10 + (c - b'0')) a.1 n)
]

-- Digits followed by no digit are read to the end: their value is returned with what is behind
-- them if it fits 64 bits, and otherwise the number is refused.
pub parse_uint64-digits :
    (c : ℕ) (ds rest : Bytes)
    → AreDigits (c ∷ ds)
    → NoDigit rest
    → parse_uint64 (c ∷ (ds ++ rest))
      ≡ (if leb (value_of 0 (c ∷ ds)) u64_max then some (value_of 0 (c ∷ ds), rest) else none)
unfolding parse_uint64
parse_uint64-digits c ds rest a n = rw a.0 (digits_value_lem (c ∷ ds) rest 0 a n (omega arith))

pub digits_onto-value :
    (f n : ℕ) (acc : Bytes) → n < f → value_of 0 (digits_onto f n acc) ≡ value_of n acc
unfolding digits_onto
digits_onto-value zero n acc h = elim h [ ]
digits_onto-value (suc f) n acc h = elim (Bool-cases (ltb n 10)) [
  | inl small ↦ rw small (ap (λ k. value_of k acc) (omega arith))
  | inr large ↦ rw large (
      digits_onto-value f (n / 10) ((n % 10 + b'0') ∷ acc) (ground arith)
      ∙ ap (λ k. value_of k acc) (omega arith))
]

pub digits_onto-AreDigits :
    (f n : ℕ) (acc : Bytes) → AreDigits acc → AreDigits (digits_onto f n acc)
unfolding digits_onto
digits_onto-AreDigits zero n acc a = a
digits_onto-AreDigits (suc f) n acc a = elim (Bool-cases (ltb n 10)) [
  | inl small ↦ rw small (ground arith, a)
  | inr large ↦
      rw large (digits_onto-AreDigits f (n / 10) ((n % 10 + b'0') ∷ acc) (ground arith, a))
]

pub digits_onto-nonempty :
    (f n : ℕ) (acc : Bytes)
    → (0 < f) ⊎ (is_empty acc ≡ false)
    → is_empty (digits_onto f n acc) ≡ false
unfolding digits_onto
digits_onto-nonempty zero n acc (inl h) = elim h [ ]
digits_onto-nonempty zero n acc (inr h) = h
digits_onto-nonempty (suc f) n acc h = elim (Bool-cases (ltb n 10)) [
  | inl small ↦ rw small
  | inr large ↦ rw large (digits_onto-nonempty f (n / 10) ((n % 10 + b'0') ∷ acc) (inr refl))
]

parse_from :
    (ds rest : Bytes) (n : ℕ)
    → is_empty ds ≡ false
    → AreDigits ds
    → NoDigit rest
    → value_of 0 ds ≡ n
    → n ≤ u64_max
    → parse_uint64 (ds ++ rest) ≡ some (n, rest)
parse_from [] rest n ne a nd v h = cc
parse_from (c ∷ ds) rest n ne a nd v h = ground (arith, parse_uint64-digits c ds rest a nd)

-- Every `uint64_t` that is printed is read back, in front of anything but a digit.
pub parse_uint64-decimal :
    (n : ℕ) (rest : Bytes)
    → n ≤ u64_max
    → NoDigit rest
    → parse_uint64 (decimal n ++ rest) ≡ some (n, rest)
unfolding decimal
parse_uint64-decimal n rest h nd =
    parse_from (digits_onto (suc n) n []) rest n
      (digits_onto-nonempty (suc n) n [] (inl (omega arith)))
      (digits_onto-AreDigits (suc n) n [] tt) nd (digits_onto-value (suc n) n [] (omega arith)) h
