-- ===== src/Json/Fuel.antt =====
-- The fuel of the scanner is enough: with three units for each character and two or three more, any
-- two amounts agree, so no call ever runs out.
use network_service.Prelude.{
  ltb, ℕ, zero, suc, ◌+◌, ◌*◌, ◌≤◌, ◌<◌, ◌≡◌, refl, ap, ◌∙◌, inl, inr, Option, none, some, arith,
  length, Bytes, Bool-cases,
}
use network_service.Json.{
  skip_string, skip_ws, expect, skip_value_on, skip_array_on, skip_items_on, skip_object_on,
  skip_members_on, skip_value, json_fuel, k_max_json_depth,
}
use network_service.Json.Suffix.{
  Behind, skip_ws-Suffix, length-Suffix, length-Proper, expect-Behind, skip_string-Behind,
}
use network_service.Json.Scan.{skip_value_on-Behind}

pub ws_shrinks : (t : Bytes) → length (skip_ws t) ≤ length t
ws_shrinks t = length-Suffix (skip_ws t) t (skip_ws-Suffix t)

pub chain_cong :
    (t : Bytes) (o : Option Bytes) (k l : Bytes → Option Bytes)
    → Behind t o
    → ((u : Bytes) → length u < length t → k u ≡ l u)
    → ◌≡◌ {A = Option Bytes}
        (elim o [ none ↦ none | some u ↦ k u ])
        (elim o [ none ↦ none | some u ↦ l u ])
chain_cong t none k l h e = refl
chain_cong t (some u) k l h e = e u (length-Proper u t h)

pub separator_cong :
    (closing : ℕ) (u : Bytes) (k l : Bytes → Option Bytes)
    → ((v : Bytes) → length v < length u → k v ≡ l v)
    → ◌≡◌ {A = Option Bytes}
        (elim (expect closing (skip_ws u)) [
          | some v ↦ some v
          | none ↦ elim (expect b',' (skip_ws u)) [ none ↦ none | some v ↦ k (skip_ws v) ]
        ])
        (elim (expect closing (skip_ws u)) [
          | some v ↦ some v
          | none ↦ elim (expect b',' (skip_ws u)) [ none ↦ none | some v ↦ l (skip_ws v) ]
        ])
separator_cong closing u k l h =
    ap
      (λ (x : Option Bytes). elim (expect closing (skip_ws u)) as (λ _. Option Bytes) [
        | some v ↦ some v
        | none ↦ x
      ])
      (chain_cong (skip_ws u) (expect b',' (skip_ws u)) (λ v. k (skip_ws v)) (λ v. l (skip_ws v))
        (expect-Behind b',' (skip_ws u))
        (λ v s. h (skip_ws v) (omega (arith, ws_shrinks v, ws_shrinks u))))

bracket_cong :
    (opening closing : ℕ) (t : Bytes) (k l : Bytes → Option Bytes)
    → ((v : Bytes) → length v < length t → k v ≡ l v)
    → ◌≡◌ {A = Option Bytes}
        (elim (expect opening t) [
          | none ↦ none
          | some u ↦ elim (expect closing (skip_ws u)) [ some v ↦ some v | none ↦ k (skip_ws u) ]
        ])
        (elim (expect opening t) [
          | none ↦ none
          | some u ↦ elim (expect closing (skip_ws u)) [ some v ↦ some v | none ↦ l (skip_ws u) ]
        ])
bracket_cong opening closing t k l h =
    chain_cong t (expect opening t)
      (λ u. elim (expect closing (skip_ws u)) [ some v ↦ some v | none ↦ k (skip_ws u) ])
      (λ u. elim (expect closing (skip_ws u)) [ some v ↦ some v | none ↦ l (skip_ws u) ])
      (expect-Behind opening t)
      (λ u s.
        ap
          (λ (x : Option Bytes). elim (expect closing (skip_ws u)) as (λ _. Option Bytes) [
            | some v ↦ some v
            | none ↦ x
          ])
          (h (skip_ws u) (omega (arith, ws_shrinks u))))

mutual
  unfolding skip_value_on

  value_fuel :
      (f g : ℕ) (t : Bytes) (d : ℕ)
      → 3 * length t + 2 ≤ f
      → 3 * length t + 2 ≤ g
      → skip_value_on f t d ≡ skip_value_on g t d
  value_fuel zero g t d hf hg = absurd (omega arith)
  value_fuel (suc f) zero t d hf hg = absurd (omega arith)
  value_fuel (suc f) (suc g) t d hf hg =
      let s = ws_shrinks t in
      rw (
        array_fuel f g (skip_ws t) d (omega arith) (omega arith),
        object_fuel f g (skip_ws t) d (omega arith) (omega arith),
      )

  array_fuel :
      (f g : ℕ) (t : Bytes) (d : ℕ)
      → 3 * length t + 1 ≤ f
      → 3 * length t + 1 ≤ g
      → skip_array_on f t d ≡ skip_array_on g t d
  array_fuel zero g t d hf hg = absurd (omega arith)
  array_fuel (suc f) zero t d hf hg = absurd (omega arith)
  array_fuel (suc f) (suc g) t d hf hg = elim (Bool-cases (ltb k_max_json_depth d)) [
    | inl e ↦ rw e
    | inr e ↦ rw e (
        bracket_cong b'[' b']' t (λ u. skip_items_on f u d) (λ u. skip_items_on g u d)
          (λ v s. items_fuel f g v d (omega arith) (omega arith)))
  ]

  items_fuel :
      (f g : ℕ) (t : Bytes) (d : ℕ)
      → 3 * length t + 3 ≤ f
      → 3 * length t + 3 ≤ g
      → skip_items_on f t d ≡ skip_items_on g t d
  items_fuel zero g t d hf hg = absurd (omega arith)
  items_fuel (suc f) zero t d hf hg = absurd (omega arith)
  items_fuel (suc f) (suc g) t d hf hg =
      ap
        (λ (o : Option Bytes). elim o as (λ _. Option Bytes) [
          | none ↦ none
          | some u ↦ elim (expect b']' (skip_ws u)) [
            | some v ↦ some v
            | none ↦ elim (expect b',' (skip_ws u)) [
              | none ↦ none
              | some v ↦ skip_items_on f (skip_ws v) d
            ]
          ]
        ])
        (value_fuel f g t (d + 1) (omega arith) (omega arith))
      ∙ chain_cong t (skip_value_on g t (d + 1)) _ _ (skip_value_on-Behind g t (d + 1)) (λ u s.
        separator_cong b']' u (λ v. skip_items_on f v d) (λ v. skip_items_on g v d)
          (λ v s'. items_fuel f g v d (omega arith) (omega arith)))

  object_fuel :
      (f g : ℕ) (t : Bytes) (d : ℕ)
      → 3 * length t + 1 ≤ f
      → 3 * length t + 1 ≤ g
      → skip_object_on f t d ≡ skip_object_on g t d
  object_fuel zero g t d hf hg = absurd (omega arith)
  object_fuel (suc f) zero t d hf hg = absurd (omega arith)
  object_fuel (suc f) (suc g) t d hf hg = elim (Bool-cases (ltb k_max_json_depth d)) [
    | inl e ↦ rw e
    | inr e ↦ rw e (
        bracket_cong b'{' b'}' t (λ u. skip_members_on f u d) (λ u. skip_members_on g u d)
          (λ v s. members_fuel f g v d (omega arith) (omega arith)))
  ]

  members_fuel :
      (f g : ℕ) (t : Bytes) (d : ℕ)
      → 3 * length t + 3 ≤ f
      → 3 * length t + 3 ≤ g
      → skip_members_on f t d ≡ skip_members_on g t d
  members_fuel zero g t d hf hg = absurd (omega arith)
  members_fuel (suc f) zero t d hf hg = absurd (omega arith)
  members_fuel (suc f) (suc g) t d hf hg =
      chain_cong t (skip_string t) _ _ (skip_string-Behind t) (λ u s.
        chain_cong (skip_ws u) (expect b':' (skip_ws u)) _ _ (expect-Behind b':' (skip_ws u))
          (λ v s'.
            let a = ws_shrinks u in
            let b = ws_shrinks v in
            ap
              (λ (o : Option Bytes). elim o as (λ _. Option Bytes) [
                | none ↦ none
                | some w ↦ elim (expect b'}' (skip_ws w)) [
                  | some x ↦ some x
                  | none ↦ elim (expect b',' (skip_ws w)) [
                    | none ↦ none
                    | some x ↦ skip_members_on f (skip_ws x) d
                  ]
                ]
              ])
              (value_fuel f g (skip_ws v) (d + 1) (omega arith) (omega arith))
            ∙ chain_cong (skip_ws v) (skip_value_on g (skip_ws v) (d + 1)) _ _
                (skip_value_on-Behind g (skip_ws v) (d + 1))
                (λ w s''.
                  separator_cong b'}' w (λ x. skip_members_on f x d) (λ x. skip_members_on g x d)
                    (λ x s'''. members_fuel f g x d (omega arith) (omega arith)))))

-- Any fuel of at least three units for each character and two more gives the result of
-- `skip_value`: the scan ends by its own tests, never by the fuel.
pub skip_value_fuel :
    (f : ℕ) (t : Bytes) (d : ℕ) → 3 * length t + 2 ≤ f → skip_value_on f t d ≡ skip_value t d
unfolding skip_value
skip_value_fuel f t d h = value_fuel f (json_fuel t) t d h (omega arith)
