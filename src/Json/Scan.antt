-- ===== src/Json/Scan.antt =====
-- What `skip_value` and its parts return is behind the text that they have read.
use network_service.Prelude.{
  ltb, ℕ, zero, suc, ◌+◌, refl, inl, inr, [], ◌∷◌, Option, none, some, arith, Bytes, Bool-cases,
  codes,
}
use network_service.Json.{
  skip_string, skip_ws, skip_digits, skip_digits1, skip_integer, skip_fraction, skip_sign,
  skip_exponent, skip_minus, skip_number, skip_literal, expect, skip_value_on, skip_array_on,
  skip_items_on, skip_object_on, skip_members_on, skip_value, k_max_json_depth,
}
use network_service.Json.Suffix.{
  Suffix, Suffix_refl, Suffix_trans, Suffix-Proper, Proper-Suffix, Proper→Suffix, Behind,
  skip_ws-Suffix, expect-Behind, skip_string-Behind,
}

pub skip_digits-Suffix : (t : Bytes) → Suffix (skip_digits t) t
unfolding skip_digits
skip_digits-Suffix [] = refl
skip_digits-Suffix (c ∷ t) = ground (arith, skip_digits-Suffix t)

skip_digits1-Behind : (t : Bytes) → Behind t (skip_digits1 t)
unfolding skip_digits1
skip_digits1-Behind [] = tt
skip_digits1-Behind (c ∷ t) = ground (arith, skip_digits-Suffix t)

-- `Behind` that allows the whole text.
abbrev pub Within : Bytes → Option Bytes → Type 0
Within t none = Unit
Within t (some r) = Suffix r t

Behind-Within : (t : Bytes) (o : Option Bytes) → Behind t o → Within t o
Behind-Within t none h = tt
Behind-Within t (some r) h = Proper→Suffix r t h

skip_integer-Behind : (t : Bytes) → Behind t (skip_integer t)
unfolding skip_integer
skip_integer-Behind [] = tt
skip_integer-Behind (c ∷ t) = ground (arith, skip_digits-Suffix t, Suffix_refl t)

pub skip_fraction-Within : (t : Bytes) → Within t (skip_fraction t)
unfolding skip_fraction
skip_fraction-Within [] = refl
skip_fraction-Within (c ∷ t) =
    ground (arith, Behind-Within t (skip_digits1 t) (skip_digits1-Behind t))

skip_sign-Suffix : (t : Bytes) → Suffix (skip_sign t) t
unfolding skip_sign
skip_sign-Suffix [] = refl
skip_sign-Suffix (c ∷ t) = ground (arith, Suffix_refl t)

pub skip_minus-Suffix : (t : Bytes) → Suffix (skip_minus t) t
unfolding skip_minus
skip_minus-Suffix [] = refl
skip_minus-Suffix (c ∷ t) = ground (arith, Suffix_refl t)

-- A scan of the text behind something is a scan of the text.
pub Behind-Suffix : (s t : Bytes) (o : Option Bytes) → Suffix s t → Behind s o → Behind t o
Behind-Suffix s t none h k = tt
Behind-Suffix s t (some r) h k = Proper-Suffix r s t k h

Within-self : (t : Bytes) → Within t (some t)
Within-self t = Suffix_refl t

pub skip_exponent-Within : (t : Bytes) → Within t (skip_exponent t)
unfolding skip_exponent
skip_exponent-Within [] = refl
skip_exponent-Within (c ∷ t) = ground (
  arith,
  Behind-Within t (skip_digits1 (skip_sign t)) (
      Behind-Suffix (skip_sign t) t (skip_digits1 (skip_sign t)) (skip_sign-Suffix t)
        (skip_digits1-Behind (skip_sign t))),
)

-- One scan after another.
pub chain_then :
    (t : Bytes) (o : Option Bytes) (k : Bytes → Option Bytes)
    → Behind t o
    → ((u : Bytes) → Within u (k u))
    → Behind t (elim o [ none ↦ none | some u ↦ k u ])
chain_then t none k h w = tt
chain_then t (some u) k h w = go (k u) (w u)
  where
    go : (o : Option Bytes) → Within u o → Behind t o
    go none x = tt
    go (some r) x = Suffix-Proper r u t x h

pub Behind-chain :
    (t : Bytes) (o : Option Bytes) (k : Bytes → Option Bytes)
    → Behind t o
    → ((u : Bytes) → Behind u (k u))
    → Behind t (elim o [ none ↦ none | some u ↦ k u ])
Behind-chain t o k h w = chain_then t o k h (λ u. Behind-Within u (k u) (w u))

pub Behind-or :
    (t : Bytes) (o alt : Option Bytes)
    → Behind t o
    → Behind t alt
    → Behind t (elim o [ some v ↦ some v | none ↦ alt ])
Behind-or t none alt h k = k
Behind-or t (some v) alt h k = h

pub Behind-ws : (t : Bytes) (o : Option Bytes) → Behind (skip_ws t) o → Behind t o
Behind-ws t o h = Behind-Suffix (skip_ws t) t o (skip_ws-Suffix t) h

pub Within-chain :
    (t : Bytes) (o : Option Bytes) (k : Bytes → Option Bytes)
    → Within t o
    → ((u : Bytes) → Within u (k u))
    → Within t (elim o [ none ↦ none | some u ↦ k u ])
Within-chain t none k h w = tt
Within-chain t (some u) k h w = go (k u) (w u)
  where
    go : (o : Option Bytes) → Within u o → Within t o
    go none x = tt
    go (some r) x = Suffix_trans r u t x h

skip_number-Behind : (t : Bytes) → Behind t (skip_number t)
unfolding skip_number
skip_number-Behind t =
    chain_then t (skip_integer (skip_minus t))
      (λ u. elim (skip_fraction u) [ none ↦ none | some v ↦ skip_exponent v ])
      (Behind-Suffix (skip_minus t) t (skip_integer (skip_minus t)) (skip_minus-Suffix t)
        (skip_integer-Behind (skip_minus t)))
      (λ u.
        Within-chain u (skip_fraction u) skip_exponent (skip_fraction-Within u)
          skip_exponent-Within)

skip_literal-Within : (l t : Bytes) → Within t (skip_literal l t)
unfolding skip_literal
skip_literal-Within [] t = Suffix_refl t
skip_literal-Within (a ∷ l) [] = tt
skip_literal-Within (a ∷ l) (c ∷ t) = ground (arith, skip_literal-Within l t)

pub skip_literal-Behind : (a : ℕ) (l t : Bytes) → Behind t (skip_literal (a ∷ l) t)
unfolding skip_literal
skip_literal-Behind a l [] = tt
skip_literal-Behind a l (c ∷ t) = ground (arith, skip_literal-Within l t)

-- The closing character, or a comma and another round of the loop.
pub Behind-separator :
    (closing : ℕ) (u : Bytes) (loop : Bytes → Option Bytes)
    → ((v : Bytes) → Behind v (loop v))
    → Behind u (elim (expect closing (skip_ws u)) [
      | some v ↦ some v
      | none ↦ elim (expect b',' (skip_ws u)) [ none ↦ none | some v ↦ loop (skip_ws v) ]
    ])
Behind-separator closing u loop h = Behind-ws u _ (
    Behind-or (skip_ws u) (expect closing (skip_ws u))
      (elim (expect b',' (skip_ws u)) [ none ↦ none | some v ↦ loop (skip_ws v) ])
      (expect-Behind closing (skip_ws u))
      (Behind-chain (skip_ws u) (expect b',' (skip_ws u)) (λ v. loop (skip_ws v))
        (expect-Behind b',' (skip_ws u)) (λ v. Behind-ws v (loop (skip_ws v)) (h (skip_ws v)))))

-- The opening character, then the closing one or the loop.
Behind-bracket :
    (opening closing : ℕ) (t : Bytes) (loop : Bytes → Option Bytes)
    → ((v : Bytes) → Behind v (loop v))
    → Behind t (elim (expect opening t) [
      | none ↦ none
      | some u ↦ elim (expect closing (skip_ws u)) [ some v ↦ some v | none ↦ loop (skip_ws u) ]
    ])
Behind-bracket opening closing t loop h =
    Behind-chain t (expect opening t)
      (λ u. elim (expect closing (skip_ws u)) [ some v ↦ some v | none ↦ loop (skip_ws u) ])
      (expect-Behind opening t)
      (λ u. Behind-ws u _ (
        Behind-or (skip_ws u) (expect closing (skip_ws u)) (loop (skip_ws u))
          (expect-Behind closing (skip_ws u)) (h (skip_ws u))))

-- Any amount of fuel.
mutual
  unfolding skip_value_on

  pub skip_value_on-Behind : (fuel : ℕ) (t : Bytes) (d : ℕ) → Behind t (skip_value_on fuel t d)
  skip_value_on-Behind zero t d = tt
  skip_value_on-Behind (suc fuel) t d = Behind-ws t (skip_value_on (suc fuel) t d) (
      ground (
        arith,
        skip_string-Behind (skip_ws t),
        skip_object_on-Behind fuel (skip_ws t) d,
        skip_array_on-Behind fuel (skip_ws t) d,
        skip_literal-Behind b't' (codes "rue") (skip_ws t),
        skip_literal-Behind b'f' (codes "alse") (skip_ws t),
        skip_literal-Behind b'n' (codes "ull") (skip_ws t),
        skip_number-Behind (skip_ws t),
      ))

  skip_array_on-Behind : (fuel : ℕ) (t : Bytes) (d : ℕ) → Behind t (skip_array_on fuel t d)
  skip_array_on-Behind zero t d = tt
  skip_array_on-Behind (suc fuel) t d = elim (Bool-cases (ltb k_max_json_depth d)) [
    | inl e ↦ rw e tt
    | inr e ↦ rw e (
        Behind-bracket b'[' b']' t (λ u. skip_items_on fuel u d)
          (λ u. skip_items_on-Behind fuel u d))
  ]

  skip_items_on-Behind : (fuel : ℕ) (t : Bytes) (d : ℕ) → Behind t (skip_items_on fuel t d)
  skip_items_on-Behind zero t d = tt
  skip_items_on-Behind (suc fuel) t d =
      Behind-chain t (skip_value_on fuel t (d + 1)) _ (skip_value_on-Behind fuel t (d + 1)) (λ u.
        Behind-separator b']' u (λ v. skip_items_on fuel v d) (λ v. skip_items_on-Behind fuel v d))

  skip_object_on-Behind : (fuel : ℕ) (t : Bytes) (d : ℕ) → Behind t (skip_object_on fuel t d)
  skip_object_on-Behind zero t d = tt
  skip_object_on-Behind (suc fuel) t d = elim (Bool-cases (ltb k_max_json_depth d)) [
    | inl e ↦ rw e tt
    | inr e ↦ rw e (
        Behind-bracket b'{' b'}' t (λ u. skip_members_on fuel u d)
          (λ u. skip_members_on-Behind fuel u d))
  ]

  skip_members_on-Behind : (fuel : ℕ) (t : Bytes) (d : ℕ) → Behind t (skip_members_on fuel t d)
  skip_members_on-Behind zero t d = tt
  skip_members_on-Behind (suc fuel) t d =
      Behind-chain t (skip_string t) _ (skip_string-Behind t) (λ u. Behind-ws u _ (
        Behind-chain (skip_ws u) (expect b':' (skip_ws u)) _ (expect-Behind b':' (skip_ws u)) (λ v.
          Behind-ws v _ (
            Behind-chain (skip_ws v) (skip_value_on fuel (skip_ws v) (d + 1)) _
              (skip_value_on-Behind fuel (skip_ws v) (d + 1))
              (λ w.
                Behind-separator b'}' w (λ x. skip_members_on fuel x d)
                  (λ x. skip_members_on-Behind fuel x d))))))

-- Whatever `skip_value` returns is behind at least one character of its text.
pub skip_value-Behind : (t : Bytes) (d : ℕ) → Behind t (skip_value t d)
unfolding skip_value
skip_value-Behind t d = skip_value_on-Behind _ t d
