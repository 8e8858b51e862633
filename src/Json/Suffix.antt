-- ===== src/Json/Suffix.antt =====
-- The scanner never leaves its text: what it returns is the text behind something it has read.
use network_service.Prelude.{
  ℕ, ◌≤◌, ◌<◌, ◌≡◌, refl, ◌⊎◌, inl, inr, [], ◌∷◌, Option, none, some, arith, length, Bytes,
}
use network_service.Json.{
  StringMode, StringStep, plain, close, refuse, go, put, string_step, string_chars, parse_string,
  skip_string, skip_ws, expect, prepend,
}

-- `r` is `t`, or is behind some of its characters; `Proper` leaves out `t` itself.
abbrev pub Suffix : Bytes → Bytes → Type 0
Suffix r [] = r ≡ []
Suffix r (c ∷ t) = (r ≡ c ∷ t) ⊎ Suffix r t

abbrev pub Proper : Bytes → Bytes → Type 0
Proper r [] = ⊥
Proper r (c ∷ t) = Suffix r t

pub Suffix_refl : (t : Bytes) → Suffix t t
Suffix_refl [] = refl
Suffix_refl (c ∷ t) = inl refl

pub Suffix_trans : (r s t : Bytes) → Suffix r s → Suffix s t → Suffix r t
Suffix_trans r s [] h k = rw k at h
Suffix_trans r s (c ∷ t) h (inl e) = rw e at h
Suffix_trans r s (c ∷ t) h (inr k) = inr (Suffix_trans r s t h k)

pub Suffix-Proper : (r s t : Bytes) → Suffix r s → Proper s t → Proper r t
Suffix-Proper r s (c ∷ t) h k = Suffix_trans r s t h k
Suffix-Proper r s [] h k = elim k [ ]

pub Proper-Suffix : (r s t : Bytes) → Proper r s → Suffix s t → Proper r t
Proper-Suffix r [] t h k = elim h [ ]
Proper-Suffix r (d ∷ s) [] h k = cc
Proper-Suffix r (d ∷ s) (c ∷ t) h (inl e) = let e' : s ≡ t = cc in rw e' at h
Proper-Suffix r (d ∷ s) (c ∷ t) h (inr k) =
    Suffix_trans r s t h (Suffix_trans s (d ∷ s) t (inr (Suffix_refl s)) k)

pub Proper→Suffix : (r t : Bytes) → Proper r t → Suffix r t
Proper→Suffix r [] h = elim h [ ]
Proper→Suffix r (c ∷ t) h = inr h

pub length-Suffix : (r t : Bytes) → Suffix r t → length r ≤ length t
length-Suffix r [] h = ground arith
length-Suffix r (c ∷ t) (inl e) = ground arith
length-Suffix r (c ∷ t) (inr h) = omega (arith, length-Suffix r t h)

pub length-Proper : (r t : Bytes) → Proper r t → length r < length t
length-Proper r [] h = elim h [ ]
length-Proper r (c ∷ t) h = omega (arith, length-Suffix r t h)

-- What a scan returns, if anything, is behind its text.
abbrev pub Behind : Bytes → Option Bytes → Type 0
Behind t none = Unit
Behind t (some r) = Proper r t

abbrev pub BehindPair {ℓ} : {A : Type ℓ} → Bytes → Option (A × Bytes) → Type 0
BehindPair t none = Unit
BehindPair t (some (v, r)) = Proper r t

pub skip_ws-Suffix : (t : Bytes) → Suffix (skip_ws t) t
unfolding skip_ws
skip_ws-Suffix [] = refl
skip_ws-Suffix (c ∷ t) = ground (arith, skip_ws-Suffix t)

pub expect-Behind : (c : ℕ) (t : Bytes) → Behind t (expect c t)
unfolding expect
expect-Behind c [] = tt
expect-Behind c (d ∷ t) = ground (arith, Suffix_refl t)

-- The same with more text in front, and through the next scan.
pub Behind-cons : (c : ℕ) (t : Bytes) (o : Option Bytes) → Behind t o → Behind (c ∷ t) o
Behind-cons c t none h = tt
Behind-cons c t (some r) h = Proper→Suffix r t h

BehindPair-prepend :
    (c d : ℕ) (t : Bytes) (o : Option (Bytes × Bytes))
    → BehindPair t o
    → BehindPair (c ∷ t) o × BehindPair (c ∷ t) (prepend d o)
BehindPair-prepend c d t none h = (tt, tt)
BehindPair-prepend c d t (some (v, r)) h = (Proper→Suffix r t h, Proper→Suffix r t h)

StringStep-cases :
    (x : StringStep)
    → (x ≡ close)
      ⊎ (x ≡ refuse)
      ⊎ ((m : StringMode) × (x ≡ go m))
      ⊎ ((c : ℕ) × (m : StringMode) × (x ≡ put c m))
StringStep-cases close = inl refl
StringStep-cases refuse = inr (inl refl)
StringStep-cases (go m) = inr (inr (inl (m, refl)))
StringStep-cases (put c m) = inr (inr (inr (c, m, refl)))

string_chars-BehindPair : (m : StringMode) (t : Bytes) → BehindPair t (string_chars m t)
unfolding string_chars
string_chars-BehindPair m [] = tt
string_chars-BehindPair m (ch ∷ t) = elim (StringStep-cases (string_step m ch)) [
  | inl e ↦ rw (e, string_chars) (Suffix_refl t)
  | inr (inl e) ↦ rw (e, string_chars) tt
  | inr (inr (inl (m', e))) ↦
      rw (e, string_chars)
        (BehindPair-prepend ch ch t (string_chars m' t) (string_chars-BehindPair m' t)).0
  | inr (inr (inr (c, m', e))) ↦
      rw (e, string_chars)
        (BehindPair-prepend ch c t (string_chars m' t) (string_chars-BehindPair m' t)).1
]

pub parse_string-BehindPair : (t : Bytes) → BehindPair t (parse_string t)
unfolding parse_string
parse_string-BehindPair [] = tt
parse_string-BehindPair (c ∷ t) =
    ground
      (arith, (BehindPair-prepend c c t (string_chars plain t) (string_chars-BehindPair plain t)).0)

pub skip_string-Behind : (t : Bytes) → Behind t (skip_string t)
unfolding skip_string
skip_string-Behind t = ground (arith, parse_string-BehindPair t)
