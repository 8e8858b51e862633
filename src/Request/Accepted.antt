-- ===== src/Request/Accepted.antt =====
-- What an accepted REQUEST has: an id that fits 64 bits and is not 0, a method, and parameters that
-- are a whole object of its text.
use network_service.Prelude.{
  ℕ, zero, suc, ◌+◌, ◌-◌, ◌*◌, ◌/◌, ◌≤◌, ◌<◌, ◌≡◌, refl, sym, ap, inl, inr, Bool, true, false, [],
  ◌∷◌, ◌++◌, Option, none, some, arith, length, is_empty, take, Bytes, Bool-cases, ltb, codes,
  if◌then◌else◌,
}
use mathlib.Core.Path.{subst}
use network_service.Rebase.{u64_max}
use network_service.Json.{
  skip_ws, expect, starts_with, parse_string, parse_uint64, skip_value, is_digit, digits_value,
}
use network_service.Json.Suffix.{
  Behind, BehindPair, Proper, Suffix, Suffix_trans, Proper→Suffix, length-Suffix, skip_ws-Suffix,
  expect-Behind, parse_string-BehindPair,
}
use network_service.Request.Parsing.{BehindReading, request_member-BehindReading}
use network_service.Json.Scan.{skip_value-Behind}
use network_service.Request.{
  ParsedRequest, no_request, RequestParseError, no_error, Reading, refused, behind,
  request_id_member, method_member, params_member, other_member, request_member, request_pair,
  request_loop, request_end, parse_request,
}

-- The parameters: `{}` where the request gives none, and else a piece `s` of the text that begins
-- with a brace and is one value, since the scan of a value from its first character ends behind its
-- last one.
pub data IsParams (text : Bytes) : Bool → Bytes → Type 0 where
  absent : IsParams text false (codes "{}")
  cut :
      (s rest : Bytes)
      → Suffix (s ++ rest) text
      → starts_with b'{' s ≡ true
      → skip_value (s ++ rest) 1 ≡ some rest
      → IsParams text true s

pub params-starts : {text s : Bytes} {b : Bool} → IsParams text b s → starts_with b'{' s ≡ true
params-starts absent = refl
params-starts (cut s rest i h e) = h

-- What has been read so far is sound.
pub record IsSound (text : Bytes) (r : ParsedRequest) : Type 0 where
  pub id_positive : r.have_request_id ≡ true → 0 < r.request_id
  pub id_fits : r.request_id ≤ u64_max
  pub method_given : r.have_method ≡ true → is_empty r.method ≡ false
  pub params : IsParams text r.have_params r.params_json

-- A reading that is refused has a reason.
abbrev pub has_reason : Reading → Bool
has_reason (refused no_error) = false
has_reason _ = true

-- What every member and the whole loop keep.
pub record Reads (text : Bytes) (o : ParsedRequest × Reading) : Type 0 where
  pub sound : IsSound text o.0
  pub reasoned : has_reason o.1 ≡ true

abbrev FitsPair : Option (ℕ × Bytes) → Type 0
FitsPair none = Unit
FitsPair (some (n, rest)) = n ≤ u64_max

digits_value-fits : (t : Bytes) (n : ℕ) → n ≤ u64_max → FitsPair (digits_value n t)
unfolding digits_value
digits_value-fits [] n h = h
digits_value-fits (c ∷ t) n h = elim (Bool-cases (ltb ((u64_max - (c - b'0')) / 10) n)) [
  | inl over ↦ ground arith
  | inr fits ↦ elim (Bool-cases (is_digit c)) [
    | inl good ↦ ground (arith, digits_value-fits t (n * 10 + (c - b'0')) (ground arith))
    | inr bad ↦ ground arith
  ]
]

parse_uint64-fits : (t : Bytes) → FitsPair (parse_uint64 t)
unfolding parse_uint64
parse_uint64-fits [] = tt
parse_uint64-fits (c ∷ t) = ground (arith, digits_value-fits (c ∷ t) 0 (omega arith))

request_id_member-Reads :
    {text : Bytes} (r : ParsedRequest) (t : Bytes)
    → IsSound text r
    → Reads text (request_id_member r t)
unfolding request_id_member
request_id_member-Reads r t s = ground (arith, parse_uint64-fits t)

method_member-Reads :
    {text : Bytes} (r : ParsedRequest) (t : Bytes) → IsSound text r → Reads text (method_member r t)
unfolding method_member
method_member-Reads r t s = ground arith

-- What is cut off in front of a suffix.
take-Suffix : (r t : Bytes) → Suffix r t → take (length t - length r) t ++ r ≡ t
take-Suffix r [] h = ground (arith, h)
take-Suffix r (c ∷ t) (inl e) =
    let none_left : length (c ∷ t) - length (c ∷ t) ≡ 0 = omega arith in rw (e, none_left) refl
take-Suffix r (c ∷ t) (inr h) =
    let e : length (c ∷ t) - length r ≡ suc (length t - length r) =
      omega (arith, length-Suffix r t h) in
    rw e (ap (◌∷◌ c) (take-Suffix r t h))

take-starts :
    (t rest : Bytes)
    → starts_with b'{' t ≡ true
    → Proper rest t
    → starts_with b'{' (take (length t - length rest) t) ≡ true
take-starts [] rest h p = elim p [ ]
take-starts (c ∷ t) rest h p =
    let e : length (c ∷ t) - length rest ≡ suc (length t - length rest) =
      omega (arith, length-Suffix rest t p) in
    rw e h

-- The value of `params`, whatever its scan says.
params_value-IsSound :
    {text : Bytes} (r : ParsedRequest) (t : Bytes)
    → IsSound text r
    → Suffix t text
    → starts_with b'{' t ≡ true
    → (o : Option Bytes) → skip_value t 1 ≡ o
    → Behind t o
    → Reads text (elim o [
      | none ↦ (r, refused RequestParseError.invalid_params)
      | some rest ↦ (
        record r { params_json = take (length t - length rest) t; have_params = true },
        behind rest,
      )
    ])
params_value-IsSound r t s i h none e b = ground arith
params_value-IsSound {text} r t s i h (some rest) e b =
    let whole = take-Suffix rest t (Proper→Suffix rest t b) in
    record {
      sound = record {
        id_positive = s.id_positive;
        id_fits = s.id_fits;
        method_given = s.method_given;
        params =
            cut _ rest (subst (λ u. Suffix u text) (sym whole) i) (take-starts t rest h b)
              (subst (λ u. skip_value u 1 ≡ some rest) (sym whole) e);
      };
      reasoned = refl;
    }

params_member-Reads :
    {text : Bytes} (r : ParsedRequest) (t : Bytes)
    → IsSound text r
    → Suffix t text
    → Reads text (params_member r t)
unfolding params_member
params_member-Reads r t s i = elim (Bool-cases (starts_with b'{' t)) [
  | inl object ↦
      let value =
        params_value-IsSound r t s i object (skip_value t 1) refl (skip_value-Behind t 1) in
      ground (arith, value)
  | inr bad ↦ ground arith
]

request_member-Reads :
    {text : Bytes} (key : Bytes) (r : ParsedRequest) (t : Bytes)
    → IsSound text r
    → Suffix t text
    → Reads text (request_member key r t)
unfolding request_member other_member
request_member-Reads key r t s i =
    ground
      (arith, request_id_member-Reads r t s, method_member-Reads r t s, params_member-Reads r t s i)

refused-Reads :
    {text : Bytes} (r : ParsedRequest)
    → IsSound text r
    → Reads text (r, refused RequestParseError.invalid_json)
refused-Reads r s = ground arith

-- A reading stays within the text.
abbrev Stays : Bytes → Reading → Type 0
Stays text (refused e) = Unit
Stays text (behind u) = Suffix u text

BehindReading-Stays :
    (text t : Bytes) (x : Reading) → Suffix t text → BehindReading t x → Stays text x
BehindReading-Stays text t (refused e) i h = tt
BehindReading-Stays text t (behind u) i h = Suffix_trans u t text (Proper→Suffix u t h) i

-- Behind the white space after something that was read.
ws-Suffix : (u t text : Bytes) → Proper u t → Suffix t text → Suffix (skip_ws u) text
ws-Suffix u t text p i =
    Suffix_trans (skip_ws u) u text (skip_ws-Suffix u)
      (Suffix_trans u t text (Proper→Suffix u t p) i)

abbrev Member : Bytes → ParsedRequest × Reading → Type 0
Member text o = Reads text o × Stays text o.1

refused-Member :
    {text : Bytes} (r : ParsedRequest)
    → IsSound text r
    → Member text (r, refused RequestParseError.invalid_json)
refused-Member r s = (refused-Reads r s, tt)

request_pair-Member :
    {text : Bytes} (r : ParsedRequest) (t : Bytes)
    → IsSound text r
    → Suffix t text
    → Member text (request_pair r t)
unfolding request_pair
request_pair-Member {text} r t s i = by_key (parse_string t) (parse_string-BehindPair t)
  where
    by_colon :
        (key t₁ : Bytes) (o : Option Bytes)
        → Suffix (skip_ws t₁) text
        → Behind (skip_ws t₁) o
        → Member text (elim o as (λ _. ParsedRequest × Reading) [
          | none ↦ (r, refused RequestParseError.invalid_json)
          | some t₂ ↦ request_member key r (skip_ws t₂)
        ])
    by_colon key t₁ none j b = refused-Member r s
    by_colon key t₁ (some t₂) j b =
        let k = ws-Suffix t₂ (skip_ws t₁) text b j in
        (
          request_member-Reads key r (skip_ws t₂) s k,
          BehindReading-Stays text (skip_ws t₂) _ k
              (request_member-BehindReading key r (skip_ws t₂)),
        )

    by_key :
        (o : Option (Bytes × Bytes))
        → BehindPair t o
        → Member text (elim o as (λ _. ParsedRequest × Reading) [
          | none ↦ (r, refused RequestParseError.invalid_json)
          | some (key, t₁) ↦ elim (expect b':' (skip_ws t₁)) as (λ _. ParsedRequest × Reading) [
            | none ↦ (r, refused RequestParseError.invalid_json)
            | some t₂ ↦ request_member key r (skip_ws t₂)
          ]
        ])
    by_key none b = refused-Member r s
    by_key (some (key, t₁)) b =
        by_colon key t₁ (expect b':' (skip_ws t₁)) (ws-Suffix t₁ t text b i)
          (expect-Behind b':' (skip_ws t₁))

-- What follows a member that was read, where the rest of the loop is `k`.
request_round-Reads :
    {text : Bytes} (o : ParsedRequest × Reading)
    (k : ParsedRequest → Bytes → ParsedRequest × Reading)
    → Member text o
    → ((t : Bytes) → Suffix t text → Reads text (k o.0 t))
    → Reads text (elim o.1 [
      | refused e ↦ (o.0, refused e)
      | behind t₁ ↦ elim (expect b'}' (skip_ws t₁)) [
        | some t₂ ↦ (o.0, behind t₂)
        | none ↦ elim (expect b',' (skip_ws t₁)) [
          | none ↦ (o.0, refused RequestParseError.invalid_json)
          | some t₂ ↦ k o.0 (skip_ws t₂)
        ]
      ]
    ])
request_round-Reads (r, refused e) k h hk = h.0
request_round-Reads {text} (r, behind t₁) k h hk =
    by_end (expect b'}' (skip_ws t₁)) (expect b',' (skip_ws t₁)) (expect-Behind b',' (skip_ws t₁))
  where
    by_end :
        (o o' : Option Bytes)
        → Behind (skip_ws t₁) o'
        → Reads text (elim o as (λ _. ParsedRequest × Reading) [
          | some t₂ ↦ (r, behind t₂)
          | none ↦ elim o' as (λ _. ParsedRequest × Reading) [
            | none ↦ (r, refused RequestParseError.invalid_json)
            | some t₂ ↦ k r (skip_ws t₂)
          ]
        ])
    by_end (some t₂) o' b = record { sound = h.0.sound; reasoned = refl }
    by_end none none b = refused-Reads r h.0.sound
    by_end none (some t₂) b = hk (skip_ws t₂) (
        ws-Suffix t₂ (skip_ws t₁) text b
          (Suffix_trans (skip_ws t₁) t₁ text (skip_ws-Suffix t₁) h.1))

request_loop-Reads :
    {text : Bytes} (fuel : ℕ) (r : ParsedRequest) (t : Bytes)
    → IsSound text r
    → Suffix t text
    → Reads text (request_loop fuel r t)
unfolding request_loop
request_loop-Reads zero r t s i = refused-Reads r s
request_loop-Reads (suc fuel) r t s i =
    let first = request_pair-Member r t s i in
    request_round-Reads (request_pair r t) (request_loop fuel) first
      (λ u j. request_loop-Reads fuel (request_pair r t).0 u first.0.sound j)

-- What the caller of `parse_request` may rely on.
pub record IsAccepted (text : Bytes) (r : ParsedRequest) : Type 0 where
  pub id_read : r.have_request_id ≡ true
  pub id_positive : 0 < r.request_id
  pub id_fits : r.request_id ≤ u64_max
  pub method_given : is_empty r.method ≡ false
  pub params : IsParams text r.have_params r.params_json

request_end-IsAccepted :
    {text : Bytes} (o : ParsedRequest × Reading)
    → Reads text o
    → (request_end o).1 ≡ no_error
    → IsAccepted text (request_end o).0
unfolding request_end
request_end-IsAccepted (r, refused e) h k = ground arith
request_end-IsAccepted (r, behind t) h k = ground (arith, h.sound)

no_request-IsSound : (text : Bytes) → IsSound text no_request
no_request-IsSound text = record {
  id_positive = λ h. cc;
  id_fits = omega arith;
  method_given = λ h. cc;
  params = absent;
}

-- The object from its brace on.
object-IsAccepted :
    (text t : Bytes)
    → Suffix t text
    → let members = request_end (request_loop (suc (length (skip_ws t))) no_request (skip_ws t)) in
      let o =
        if starts_with b'}' (skip_ws t)
        then (no_request, RequestParseError.missing_request_id)
        else members in
      o.1 ≡ no_error → IsAccepted text o.0
object-IsAccepted text t i h =
    let members = request_loop (suc (length (skip_ws t))) no_request (skip_ws t) in
    let end = request_end-IsAccepted members (
      request_loop-Reads (suc (length (skip_ws t))) no_request (skip_ws t) (no_request-IsSound text)
        (Suffix_trans (skip_ws t) t text (skip_ws-Suffix t) i)) in
    ground (arith, end)

text-IsAccepted :
    (text : Bytes) (start : Option Bytes)
    → Behind (skip_ws text) start
    → let o = elim start as (λ _. ParsedRequest × RequestParseError) [
      | none ↦ (no_request, RequestParseError.invalid_json)
      | some t ↦
          let members =
            request_end (request_loop (suc (length (skip_ws t))) no_request (skip_ws t)) in
          if starts_with b'}' (skip_ws t)
          then (no_request, RequestParseError.missing_request_id)
          else members
    ] in
      o.1 ≡ no_error → IsAccepted text o.0
text-IsAccepted text none b h = ground arith
text-IsAccepted text (some t) b h =
    object-IsAccepted text t
      (Suffix_trans t (skip_ws text) text (Proper→Suffix t (skip_ws text) b) (skip_ws-Suffix text))
      h

-- A REQUEST that is accepted has an id that fits 64 bits and is not 0 and a method that is not
-- empty. Its parameters are `{}` if it gives none; if it gives some, they are a piece of its text
-- that begins with a brace and is exactly one value: the scan of a value that begins there ends
-- where the piece ends.
pub parse_request-IsAccepted :
    (text : Bytes) → (parse_request text).1 ≡ no_error → IsAccepted text (parse_request text).0
unfolding parse_request
parse_request-IsAccepted text h =
    text-IsAccepted text (expect b'{' (skip_ws text)) (expect-Behind b'{' (skip_ws text)) h
