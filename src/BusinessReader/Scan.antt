-- ===== src/BusinessReader/Scan.antt =====
-- What the reader skips is behind its text, so that the loops' fuel is never used up.
use network_service.Prelude.{
  ℕ, zero, suc, ◌<◌, ◌≡◌, refl, ◌⊎◌, inl, inr, [], ◌∷◌, Option, none, some, arith, length, Bytes,
  codes,
}
use network_service.Json.{skip_ws, skip_fraction, skip_exponent, skip_minus, expect}
use network_service.Json.Suffix.{
  Suffix_refl, Proper→Suffix, Behind, BehindPair, expect-Behind, Behind-cons,
}
use network_service.Json.Scan.{
  skip_digits-Suffix, skip_minus-Suffix, Behind-Suffix, chain_then, Behind-or, Behind-ws,
  Behind-chain, Within-chain, skip_fraction-Within, skip_exponent-Within, skip_literal-Behind,
  Behind-separator,
}
use network_service.Json.Fuel.{chain_cong, separator_cong, ws_shrinks}
use network_service.BusinessReader.{
  StringMode, StringStep, plain, close, refuse, go, put, string_step, string_chars, parse_string,
  skip_string, prefix, skip_integer, skip_number, separated, skip_items, skip_members,
  unless_closed, skip_value,
}

BehindPair-prefix :
    (c : ℕ) (bytes t : Bytes) (o : Option (Bytes × Bytes))
    → BehindPair t o
    → BehindPair (c ∷ t) o × BehindPair (c ∷ t) (prefix bytes o)
BehindPair-prefix c bytes t none h = (tt, tt)
BehindPair-prefix c bytes t (some (v, r)) h = (Proper→Suffix r t h, Proper→Suffix r t h)

StringStep-cases :
    (x : StringStep)
    → (x ≡ close)
      ⊎ (x ≡ refuse)
      ⊎ ((m : StringMode) × (x ≡ go m))
      ⊎ ((bytes : Bytes) × (m : StringMode) × (x ≡ put bytes m))
StringStep-cases close = inl refl
StringStep-cases refuse = inr (inl refl)
StringStep-cases (go m) = inr (inr (inl (m, refl)))
StringStep-cases (put bytes m) = inr (inr (inr (bytes, m, refl)))

string_chars-BehindPair : (m : StringMode) (t : Bytes) → BehindPair t (string_chars m t)
unfolding string_chars
string_chars-BehindPair m [] = tt
string_chars-BehindPair m (c ∷ t) = elim (StringStep-cases (string_step m c)) [
  | inl e ↦ rw (e, string_chars) (Suffix_refl t)
  | inr (inl e) ↦ rw (e, string_chars) tt
  | inr (inr (inl (m', e))) ↦
      rw (e, string_chars)
        (BehindPair-prefix c [] t (string_chars m' t) (string_chars-BehindPair m' t)).0
  | inr (inr (inr (bytes, m', e))) ↦
      rw (e, string_chars)
        (BehindPair-prefix c bytes t (string_chars m' t) (string_chars-BehindPair m' t)).1
]

pub parse_string-BehindPair : (t : Bytes) → BehindPair t (parse_string t)
unfolding parse_string
parse_string-BehindPair [] = tt
parse_string-BehindPair (c ∷ t) =
    ground
      (arith, (BehindPair-prefix c [] t (string_chars plain t) (string_chars-BehindPair plain t)).0)

pub skip_string-Behind : (t : Bytes) → Behind t (skip_string t)
unfolding skip_string
skip_string-Behind t = ground (arith, parse_string-BehindPair t)

skip_integer-Behind : (t : Bytes) → Behind t (skip_integer t)
unfolding skip_integer
skip_integer-Behind [] = tt
skip_integer-Behind (c ∷ t) = ground (arith, skip_digits-Suffix t, Suffix_refl t)

skip_number-Behind : (t : Bytes) → Behind t (skip_number t)
unfolding skip_number
skip_number-Behind t =
    chain_then t (skip_integer (skip_minus t))
      (λ u. elim (skip_fraction u) [ none ↦ none | some v ↦ skip_exponent v ])
      (Behind-Suffix (skip_minus t) t (skip_integer (skip_minus t)) (skip_minus-Suffix t)
        (skip_integer-Behind (skip_minus t)))
      (λ u.
        Within-chain u (skip_fraction u) skip_exponent (skip_fraction-Within u)
          skip_exponent-Within)

-- The loops over a reader that moves on.
module _ (read : Bytes → Option Bytes) (moves : (t : Bytes) → Behind t (read t)) where
  skip_items-Behind : (fuel : ℕ) (t : Bytes) → Behind t (skip_items read fuel t)
  unfolding skip_items
  skip_items-Behind zero t = tt
  skip_items-Behind (suc fuel) t =
      Behind-chain t (read t) (separated b']' (skip_items read fuel)) (moves t)
        (λ u. Behind-separator b']' u (skip_items read fuel) (skip_items-Behind fuel))

  skip_members-Behind : (fuel : ℕ) (t : Bytes) → Behind t (skip_members read fuel t)
  unfolding skip_members
  skip_members-Behind zero t = tt
  skip_members-Behind (suc fuel) t = Behind-chain t (skip_string t) _ (skip_string-Behind t) (λ u.
      Behind-ws u _ (
        Behind-chain (skip_ws u) (expect b':' (skip_ws u)) _ (expect-Behind b':' (skip_ws u)) (λ v.
          Behind-ws v _ (
            Behind-chain (skip_ws v) (read (skip_ws v)) (separated b'}' (skip_members read fuel))
              (moves (skip_ws v))
              (λ w. Behind-separator b'}' w (skip_members read fuel) (skip_members-Behind fuel))))))

  -- With more fuel than characters, any two amounts agree.
  pub skip_items_fuel :
      (f g : ℕ) (t : Bytes)
      → length t < f
      → length t < g
      → skip_items read f t ≡ skip_items read g t
  unfolding skip_items
  skip_items_fuel zero g t hf hg = absurd (omega arith)
  skip_items_fuel (suc f) zero t hf hg = absurd (omega arith)
  skip_items_fuel (suc f) (suc g) t hf hg =
      chain_cong t (read t) (separated b']' (skip_items read f))
        (separated b']' (skip_items read g)) (moves t)
        (λ u s.
          separator_cong b']' u (skip_items read f) (skip_items read g)
            (λ v s'. skip_items_fuel f g v (omega arith) (omega arith)))

  pub skip_members_fuel :
      (f g : ℕ) (t : Bytes)
      → length t < f
      → length t < g
      → skip_members read f t ≡ skip_members read g t
  unfolding skip_members
  skip_members_fuel zero g t hf hg = absurd (omega arith)
  skip_members_fuel (suc f) zero t hf hg = absurd (omega arith)
  skip_members_fuel (suc f) (suc g) t hf hg =
      chain_cong t (skip_string t) _ _ (skip_string-Behind t) (λ u s.
        chain_cong (skip_ws u) (expect b':' (skip_ws u)) _ _ (expect-Behind b':' (skip_ws u))
          (λ v s'.
            let a = ws_shrinks u in
            let b = ws_shrinks v in
            chain_cong (skip_ws v) (read (skip_ws v)) (separated b'}' (skip_members read f))
              (separated b'}' (skip_members read g)) (moves (skip_ws v))
              (λ w s₂.
                separator_cong b'}' w (skip_members read f) (skip_members read g)
                  (λ x s₃. skip_members_fuel f g x (omega arith) (omega arith)))))

  unless_closed-Behind :
      (closing : ℕ) (loop : ℕ → Bytes → Option Bytes) (t : Bytes)
      → ((f : ℕ) (u : Bytes) → Behind u (loop f u))
      → Behind t (unless_closed closing loop t)
  unless_closed-Behind closing loop t h = Behind-ws t _ (
      Behind-or (skip_ws t) (expect closing (skip_ws t)) (loop (suc (length t)) (skip_ws t))
        (expect-Behind closing (skip_ws t)) (h (suc (length t)) (skip_ws t)))

pub skip_value-Behind : (left : ℕ) (t : Bytes) → Behind t (skip_value left t)
unfolding skip_value
skip_value-Behind zero t = tt
skip_value-Behind (suc left) [] = tt
skip_value-Behind (suc left) (c ∷ t) =
    let read = skip_value left in
    let moves = skip_value-Behind left in
    ground (
      arith,
      Behind-cons c t (unless_closed b'}' (skip_members read) t) (
          unless_closed-Behind read moves b'}' (skip_members read) t
            (skip_members-Behind read moves)),
      Behind-cons c t (unless_closed b']' (skip_items read) t)
          (unless_closed-Behind read moves b']' (skip_items read) t (skip_items-Behind read moves)),
      skip_string-Behind (c ∷ t),
      skip_literal-Behind b't' (codes "rue") (c ∷ t),
      skip_literal-Behind b'f' (codes "alse") (c ∷ t),
      skip_literal-Behind b'n' (codes "ull") (c ∷ t),
      skip_number-Behind (c ∷ t),
    )
