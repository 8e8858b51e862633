-- ===== src/Lines.antt =====
-- Searching and splitting of texts: `std::string::find` and `substr`, and `std::getline`, as the
-- readers of files and of supplicant texts use them.
use network_service.Prelude.{
  ℕ, ◌≡◌, ◌≢◌, refl, Bool, true, false, List, [], ◌∷◌, ◌++◌, Option, none, some, arith, ◌==◌,
  if◌then◌else◌, All, Bytes,
}

-- The text behind `needle`, if the text begins with it.
unfoldable pub behind : Bytes → Bytes → Option Bytes
behind [] t = some t
behind (n ∷ needle) [] = none
behind (n ∷ needle) (c ∷ t) = let rest = behind needle t in if c == n then rest else none

abbrev pub here_or : Option Bytes → Bytes → Option (Bytes × Bytes) → Option (Bytes × Bytes)
here_or none t later = later
here_or (some rest) t later = some (t, rest)

-- The first place of `needle`: the text from there on, and the text behind it.
unfoldable pub find : Bytes → Bytes → Option (Bytes × Bytes)
unfolding behind
find needle [] = here_or (behind needle []) [] none
find needle (c ∷ t) = let later = find needle t in here_or (behind needle (c ∷ t)) (c ∷ t) later

-- `find(...) != std::string::npos`.
unfoldable pub contains : Bytes → Bytes → Bool
unfolding find
contains needle t = elim (find needle t) [ none ↦ false | some place ↦ true ]

-- What is in front of the first `c`, or everything.
unfoldable pub up_to : ℕ → Bytes → Bytes
up_to c [] = []
up_to c (d ∷ t) = let rest = up_to c t in if d == c then [] else d ∷ rest

abbrev pub in_front : ℕ → Option (Bytes × Bytes) → Option (Bytes × Bytes)
in_front c none = none
in_front c (some (key, value)) = some (c ∷ key, value)

-- What is in front of the first `=` and behind it.
unfoldable pub key_value : Bytes → Option (Bytes × Bytes)
key_value [] = none
key_value (c ∷ t) = let rest = key_value t in if c == b'=' then some ([], t) else in_front c rest

abbrev pub onto_first : ℕ → List Bytes → List Bytes
onto_first c [] = (c ∷ []) ∷ []
onto_first c (l ∷ ls) = (c ∷ l) ∷ ls

-- The lines that a loop of `std::getline` reads: a last line without an end counts if it is not
-- empty.
unfoldable pub lines : Bytes → List Bytes
lines [] = []
lines (c ∷ t) = let rest = lines t in if c == b'\n' then [] ∷ rest else onto_first c rest

abbrev pub Lacks : ℕ → Bytes → Type 0
Lacks c = All (λ d. d ≢ c)

-- A line that is written with its end is read back, and so is what comes behind it.
pub lines-line : (l t : Bytes) → Lacks b'\n' l → lines (l ++ (b'\n' ∷ t)) ≡ l ∷ lines t
unfolding lines
lines-line [] t h = refl
lines-line (c ∷ l) t h = ground (arith, h.0, lines-line l t h.1)

-- A key without `=` is told apart from its value.
pub key_value-pair :
    (key value : Bytes) → Lacks b'=' key → key_value (key ++ (b'=' ∷ value)) ≡ some (key, value)
unfolding key_value
key_value-pair [] value h = refl
key_value-pair (c ∷ key) value h = ground (arith, h.0, key_value-pair key value h.1)
