-- ===== src/Json/Depth.antt =====
-- The recursion of the scanner is bounded by `kMaxJsonDepth`.
use network_service.Prelude.{
  ltb, lt→ltb, ℕ, zero, suc, ◌+◌, ◌<◌, ◌≡◌, refl, inl, inr, ◌∷◌, none, arith, Bytes, Bool-cases,
}
use network_service.Json.{skip_value_on, skip_array_on, skip_items_on, skip_value, k_max_json_depth}

abbrev pub brackets : ℕ → Bytes → Bytes
brackets zero t = t
brackets (suc n) t = b'[' ∷ brackets n t

items_nested :
    (f d : ℕ) (t : Bytes)
    → ((g : ℕ) → skip_value_on g t (d + 1) ≡ none)
    → skip_items_on f t d ≡ none
unfolding skip_value_on
items_nested zero d t h = refl
items_nested (suc f) d t h = rw (h f)

array_nested :
    (f d : ℕ) (t : Bytes)
    → ((g : ℕ) → skip_value_on g (b'[' ∷ t) (d + 1) ≡ none)
    → skip_array_on f (b'[' ∷ b'[' ∷ t) d ≡ none
unfolding skip_value_on
array_nested zero d t h = refl
array_nested (suc f) d t h = elim (Bool-cases (ltb k_max_json_depth d)) [
  | inl e ↦ rw e
  | inr e ↦ rw e (items_nested f d (b'[' ∷ t) h)
]

value_nested :
    (f d : ℕ) (t : Bytes)
    → ((g : ℕ) → skip_value_on g (b'[' ∷ t) (d + 1) ≡ none)
    → skip_value_on f (b'[' ∷ b'[' ∷ t) d ≡ none
unfolding skip_value_on
value_nested zero d t h = refl
value_nested (suc f) d t h = elim (Bool-cases (ltb k_max_json_depth d)) [
  | inl e ↦ rw e
  | inr e ↦ rw e (array_nested f d t h)
]

value_deep : (f d : ℕ) (t : Bytes) → k_max_json_depth < d → skip_value_on f t d ≡ none
unfolding skip_value_on
value_deep zero d t h = refl
value_deep (suc f) d t h = rw (lt→ltb k_max_json_depth d h)

value-brackets :
    (n f d : ℕ) (t : Bytes) → k_max_json_depth + 1 < n + d → skip_value_on f (brackets n t) d ≡ none
value-brackets zero f d t h = value_deep f d t (omega arith)
value-brackets (suc zero) f d t h = value_deep f d (b'[' ∷ t) (omega arith)
value-brackets (suc (suc n)) f d t h =
    value_nested f d (brackets n t) (λ g. value-brackets (suc n) g (d + 1) t (omega arith))

-- Text that opens arrays past the 16th level is refused, whatever it goes on with: `n` brackets at
-- depth `d` with `n + d` above 17.
pub skip_value-brackets :
    (n d : ℕ) (t : Bytes) → k_max_json_depth + 1 < n + d → skip_value (brackets n t) d ≡ none
unfolding skip_value
skip_value-brackets n d t h = value-brackets n _ d t h
