-- ===== src/Request/Parsing.antt =====
-- The loop over the members of a REQUEST ends by its own tests: any fuel above the length of the
-- text gives the same result.
use network_service.Prelude.{
  ℕ, zero, suc, ◌+◌, ◌*◌, ◌-◌, ◌≤◌, ◌<◌, ◌≡◌, refl, ap, [], ◌∷◌, Option, none, some, arith, length,
  Bytes,
}
use network_service.Json.{skip_ws, expect, parse_string, parse_uint64, digits_value}
use network_service.Json.Suffix.{
  Suffix, Proper, Behind, BehindPair, skip_ws-Suffix, length-Suffix, length-Proper, expect-Behind,
  parse_string-BehindPair,
}
use network_service.Json.Scan.{skip_value-Behind}
use network_service.Request.{
  ParsedRequest, RequestParseError, Reading, refused, behind, request_id_member, method_member,
  params_member, other_member, request_member, request_pair, request_loop,
}

abbrev pub BehindReading : Bytes → Reading → Type 0
BehindReading t (refused e) = Unit
BehindReading t (behind u) = Proper u t

abbrev SuffixPair : Bytes → Option (ℕ × Bytes) → Type 0
SuffixPair t none = Unit
SuffixPair t (some (n, r)) = Suffix r t

digits_value-SuffixPair : (t : Bytes) (n : ℕ) → SuffixPair t (digits_value n t)
unfolding digits_value
digits_value-SuffixPair [] n = refl
digits_value-SuffixPair (c ∷ t) n = ground (arith, digits_value-SuffixPair t (n * 10 + (c - b'0')))

parse_uint64-BehindPair : (t : Bytes) → BehindPair t (parse_uint64 t)
unfolding parse_uint64 digits_value
parse_uint64-BehindPair [] = tt
parse_uint64-BehindPair (c ∷ t) = ground (arith, digits_value-SuffixPair t (0 * 10 + (c - b'0')))

pub request_member-BehindReading :
    (key : Bytes) (r : ParsedRequest) (t : Bytes) → BehindReading t (request_member key r t).1
unfolding request_member request_id_member method_member params_member other_member
request_member-BehindReading key r t =
    ground (arith, parse_uint64-BehindPair t, parse_string-BehindPair t, skip_value-Behind t 1)

-- The text behind a reading is shorter than `n`.
abbrev Shorter : ℕ → Reading → Type 0
Shorter n (refused e) = Unit
Shorter n (behind u) = length u < n

BehindReading-Shorter :
    (t : Bytes) (x : Reading) (n : ℕ) → BehindReading t x → length t ≤ n → Shorter n x
BehindReading-Shorter t (refused e) n h le = tt
BehindReading-Shorter t (behind u) n h le = omega (arith, length-Proper u t h)

ws_shrinks : (t : Bytes) → length (skip_ws t) ≤ length t
ws_shrinks t = length-Suffix (skip_ws t) t (skip_ws-Suffix t)

either_Shorter {ℓ} :
    {A : Type ℓ} (n : ℕ) (o : Option (A × Bytes)) (r : ParsedRequest) (e : RequestParseError)
    (k : A × Bytes → ParsedRequest × Reading)
    → ((a : A × Bytes) → o ≡ some a → Shorter n (k a).1)
    → Shorter n
        (elim o as (λ _. ParsedRequest × Reading) [ none ↦ (r, refused e) | some a ↦ k a ]).1
either_Shorter n none r e k h = tt
either_Shorter n (some a) r e k h = h a refl

member_value-Shorter :
    (key : Bytes) (r : ParsedRequest) (u : Bytes) (n : ℕ) (o : Option Bytes)
    → Behind (skip_ws u) o
    → length u < n
    → Shorter n
        (elim o as (λ _. ParsedRequest × Reading) [
          | none ↦ (r, refused RequestParseError.invalid_json)
          | some t₂ ↦ request_member key r (skip_ws t₂)
        ]).1
member_value-Shorter key r u n none b h = tt
member_value-Shorter key r u n (some v) b h =
    BehindReading-Shorter (skip_ws v) (request_member key r (skip_ws v)).1 n
      (request_member-BehindReading key r (skip_ws v))
      (omega (arith, ws_shrinks u, ws_shrinks v, length-Proper v (skip_ws u) b))

-- What is behind a member is shorter than the text it was read from.
request_pair-Shorter : (r : ParsedRequest) (t : Bytes) → Shorter (length t) (request_pair r t).1
unfolding request_pair
request_pair-Shorter r t =
    either_Shorter (length t) (parse_string t) r RequestParseError.invalid_json _ (λ (key, u) e.
      member_value-Shorter key r u (length t) (expect b':' (skip_ws u))
        (expect-Behind b':' (skip_ws u))
        (ground (arith, parse_string-BehindPair t, length-Proper u t)))

request_round_cong :
    (o : ParsedRequest × Reading) (n : ℕ) (k l : ParsedRequest → Bytes → ParsedRequest × Reading)
    → Shorter n o.1
    → ((u : Bytes) → length u < n → k o.0 u ≡ l o.0 u)
    → ◌≡◌ {A = ParsedRequest × Reading}
        (elim o.1 [
          | refused e ↦ (o.0, refused e)
          | behind t₁ ↦ elim (expect b'}' (skip_ws t₁)) [
            | some t₂ ↦ (o.0, behind t₂)
            | none ↦ elim (expect b',' (skip_ws t₁)) [
              | none ↦ (o.0, refused RequestParseError.invalid_json)
              | some t₂ ↦ k o.0 (skip_ws t₂)
            ]
          ]
        ])
        (elim o.1 [
          | refused e ↦ (o.0, refused e)
          | behind t₁ ↦ elim (expect b'}' (skip_ws t₁)) [
            | some t₂ ↦ (o.0, behind t₂)
            | none ↦ elim (expect b',' (skip_ws t₁)) [
              | none ↦ (o.0, refused RequestParseError.invalid_json)
              | some t₂ ↦ l o.0 (skip_ws t₂)
            ]
          ]
        ])
request_round_cong (r, refused e) n k l s h = refl
request_round_cong (r, behind t) n k l s h =
    comma (expect b',' (skip_ws t)) (expect-Behind b',' (skip_ws t))
  where
    comma :
        (o : Option Bytes)
        → Behind (skip_ws t) o
        → ◌≡◌ {A = ParsedRequest × Reading}
            (elim (expect b'}' (skip_ws t)) [
              | some t₂ ↦ (r, behind t₂)
              | none ↦ elim o [
                | none ↦ (r, refused RequestParseError.invalid_json)
                | some t₂ ↦ k r (skip_ws t₂)
              ]
            ])
            (elim (expect b'}' (skip_ws t)) [
              | some t₂ ↦ (r, behind t₂)
              | none ↦ elim o [
                | none ↦ (r, refused RequestParseError.invalid_json)
                | some t₂ ↦ l r (skip_ws t₂)
              ]
            ])
    comma none b = refl
    comma (some u) b =
        ap
          (λ (x : ParsedRequest × Reading).
            elim (expect b'}' (skip_ws t)) as (λ _. ParsedRequest × Reading) [
              | some t₂ ↦ (r, behind t₂)
              | none ↦ x
            ])
          (h (skip_ws u)
            (omega (arith, s, ws_shrinks t, ws_shrinks u, length-Proper u (skip_ws t) b)))

-- Any two amounts of fuel above the length of the text give the loop the same result, so it never
-- ends for want of fuel.
pub request_loop_fuel :
    (f g : ℕ) (r : ParsedRequest) (t : Bytes)
    → length t < f
    → length t < g
    → request_loop f r t ≡ request_loop g r t
unfolding request_loop
request_loop_fuel zero g r t hf hg = absurd (omega arith)
request_loop_fuel (suc f) zero r t hf hg = absurd (omega arith)
request_loop_fuel (suc f) (suc g) r t hf hg =
    request_round_cong (request_pair r t) (length t) (request_loop f) (request_loop g)
      (request_pair-Shorter r t)
      (λ u s. request_loop_fuel f g (request_pair r t).0 u (omega arith) (omega arith))
