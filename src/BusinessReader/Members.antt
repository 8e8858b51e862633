-- ===== src/BusinessReader/Members.antt =====
-- The members of an object that the representation wrote are found by their names.
use network_service.Prelude.{
  ℕ, zero, suc, ◌-◌, ◌<◌, ◌≡◌, refl, ap, ◌∙◌, ◌⊎◌, inl, inr, Bool, true, false, not, List, [], ◌∷◌,
  ◌++◌, append_assoc, Option, none, some, arith, length, take, All, Bytes, if◌then◌else◌, text_eq,
  is_empty, length-append,
}
use network_service.Json.{skip_ws, skip_literal, expect, ◌>>=◌}
use network_service.Representation.{
  json_escape, quoted, bool_text, member_text, more_members, json_object,
}
use network_service.BusinessReader.{
  parse_string, skip_string, skip_value, levels, read_up_to, note_member, next_member, find_loop,
  find_member, parse_full_string, read_string,
}
use network_service.BusinessReader.Text.{IsPlain, string_chars-json_escape, string_chars-plain}

-- What stands behind the value of a member.
abbrev pub IsEnd : Bytes → Type 0
IsEnd [] = ⊥
IsEnd (c ∷ t) = (c ≡ b',') ⊎ (c ≡ b'}')

-- A text that is one value, whatever member or end comes behind it.
pub record IsValue (value : Bytes) : Type 0 where
  pub starts : (rest : Bytes) → IsEnd rest → skip_ws (value ++ rest) ≡ value ++ rest
  pub reads : (rest : Bytes) → IsEnd rest → skip_value levels (value ++ rest) ≡ some rest

quoted_cons : (s rest : Bytes) → quoted s ++ rest ≡ b'"' ∷ (json_escape s ++ (b'"' ∷ rest))
quoted_cons s rest = ap (◌∷◌ b'"') (append_assoc (json_escape s) (b'"' ∷ []) rest)

skip_value-quoted :
    (s rest : Bytes) → skip_value levels (b'"' ∷ (json_escape s ++ (b'"' ∷ rest))) ≡ some rest
unfolding skip_value skip_string parse_string
skip_value-quoted s rest =
    ap
      (λ (o : Option (Bytes × Bytes)). elim o as (λ _. Option Bytes) [
        | none ↦ none
        | some (value, behind) ↦ some behind
      ])
      (string_chars-json_escape s rest)

skip_ws-quote : (t : Bytes) → skip_ws (b'"' ∷ t) ≡ b'"' ∷ t
unfolding skip_ws
skip_ws-quote t = refl

pub quoted-IsValue : (s : Bytes) → IsValue (quoted s)
quoted-IsValue s = record {
  starts = λ rest e. skip_ws-quote _;
  reads = λ rest e. ap (skip_value levels) (quoted_cons s rest) ∙ skip_value-quoted s rest;
}

pub bool-IsValue : (b : Bool) → IsValue (bool_text b)
unfolding skip_value skip_ws skip_literal
bool-IsValue true = record { starts = λ rest e. refl; reads = λ rest e. refl }
bool-IsValue false = record { starts = λ rest e. refl; reads = λ rest e. refl }

take-all : (v rest : Bytes) → take (length v) (v ++ rest) ≡ v
take-all [] rest = refl
take-all (c ∷ v) rest = ap (◌∷◌ c) (take-all v rest)

read_up_to-append : (v rest : Bytes) → read_up_to (v ++ rest) rest ≡ v
read_up_to-append v rest =
    ap (λ (n : ℕ). take n (v ++ rest))
      (let e : length (v ++ rest) - length rest ≡ length v = omega (arith, length-append v rest) in
        e)
    ∙ take-all v rest

-- The text of an object with a member, from its first quote on.
abbrev pub IsMember : Bytes × Bytes → Type 0
IsMember (name, value) = IsPlain name × IsValue value

more_members-IsEnd : (ms : List (Bytes × Bytes)) → IsEnd (more_members ms)
more_members-IsEnd [] = inr refl
more_members-IsEnd (m ∷ ms) = inl refl

parse_string-name :
    (name rest : Bytes)
    → IsPlain name
    → parse_string (b'"' ∷ (name ++ (b'"' ∷ rest))) ≡ some (name, rest)
unfolding parse_string
parse_string-name name rest h = string_chars-plain name rest h

expect-colon : (t : Bytes) → expect b':' (skip_ws (b':' ∷ t)) ≡ some t
unfolding expect skip_ws
expect-colon t = refl

-- One round of the loop.
find_loop-member :
    (wanted : Bytes) (fuel : ℕ) (found : Option Bytes) (name value rest : Bytes)
    → IsPlain name
    → IsValue value
    → IsEnd rest
    → find_loop wanted (suc fuel) found (member_text (name, value) rest)
      ≡ note_member wanted name value found >>= next_member (find_loop wanted fuel) rest
unfolding find_loop
find_loop-member wanted fuel found name value rest p v e =
    let ends = λ (raw : Bytes).
      note_member wanted name raw found >>= next_member (find_loop wanted fuel) rest in
    let from = λ (t : Bytes) (w : Bytes).
      note_member wanted name (read_up_to t w) found >>= next_member (find_loop wanted fuel) w in
    let behind = λ (t : Bytes). skip_value levels (skip_ws t) >>= from (skip_ws t) in
    ap
      (λ (o : Option (Bytes × Bytes)). o >>= (λ (key, u). expect b':' (skip_ws u) >>= (λ t.
        skip_value levels (skip_ws t) >>= (λ w.
          note_member wanted key (read_up_to (skip_ws t) w) found
          >>= next_member (find_loop wanted fuel) w))))
      (parse_string-name name (b':' ∷ (value ++ rest)) p)
    ∙ ap (λ (o : Option Bytes). o >>= behind) (expect-colon (value ++ rest))
    ∙ ap (λ (t : Bytes). skip_value levels t >>= from t) (v.starts rest e)
    ∙ ap (λ (o : Option Bytes). o >>= from (value ++ rest)) (v.reads rest e)
    ∙ ap ends (read_up_to-append value rest)

-- The values of the members that have the name.
abbrev pub values_of : Bytes → List (Bytes × Bytes) → List Bytes
values_of wanted [] = []
values_of wanted ((name, value) ∷ ms) =
    let rest = values_of wanted ms in if text_eq name wanted then value ∷ rest else rest

-- What the search ends with: one value at most may be found.
abbrev sole : Option Bytes → List Bytes → Option (Option Bytes)
sole found [] = some found
sole (some u) (v ∷ vs) = none
sole none (v ∷ []) = some (some v)
sole none (v ∷ w ∷ vs) = none

abbrev ending : Option (Option Bytes) → Option (Option Bytes × Bytes)
ending none = none
ending (some found) = some (found, [])

sole_next :
    (value : Bytes) (vs : List Bytes)
    → ending (sole (some value) vs) ≡ ending (sole none (value ∷ vs))
sole_next value [] = refl
sole_next value (w ∷ vs) = refl

after_note :
    (next : Option Bytes → Option (Option Bytes × Bytes)) (value : Bytes) (vs : List Bytes)
    (found : Option Bytes) (b : Bool)
    → ((now : Option Bytes) → next now ≡ ending (sole now vs))
    → ((if not b then some found else elim found as (λ _. Option (Option Bytes)) [
      | some other ↦ none
      | none ↦ some (some value)
    ])
        >>= next)
      ≡ ending (sole found (if b then value ∷ vs else vs))
after_note next value vs found false h = h found
after_note next value vs none true h = h (some value) ∙ sole_next value vs
after_note next value vs (some other) true h = refl

next_member-end :
    (next : Option Bytes → Bytes → Option (Option Bytes × Bytes)) (found : Option Bytes)
    → next_member next (b'}' ∷ []) found ≡ some (found, [])
unfolding skip_ws expect
next_member-end next found = refl

next_member-comma :
    (next : Option Bytes → Bytes → Option (Option Bytes × Bytes)) (t : Bytes) (found : Option Bytes)
    → next_member next (b',' ∷ b'"' ∷ t) found ≡ next found (b'"' ∷ t)
unfolding skip_ws expect
next_member-comma next t found = refl

find_loop-members :
    (wanted : Bytes) (fuel : ℕ) (found : Option Bytes) (m : Bytes × Bytes)
    (ms : List (Bytes × Bytes))
    → length ms < fuel
    → All IsMember (m ∷ ms)
    → find_loop wanted fuel found (member_text m (more_members ms))
      ≡ ending (sole found (values_of wanted (m ∷ ms)))
find_loop-members wanted zero found m ms h all = absurd (omega arith)
find_loop-members wanted (suc fuel) found (name, value) [] h ((p, v), all) =
    find_loop-member wanted fuel found name value (more_members []) p v (more_members-IsEnd [])
    ∙ after_note (next_member (find_loop wanted fuel) (more_members [])) value [] found
        (text_eq name wanted) (next_member-end (find_loop wanted fuel))
find_loop-members wanted (suc fuel) found (name, value) (m ∷ ms) h ((p, v), all) =
    find_loop-member wanted fuel found name value (more_members (m ∷ ms)) p v
      (more_members-IsEnd (m ∷ ms))
    ∙ after_note (next_member (find_loop wanted fuel) (more_members (m ∷ ms))) value
        (values_of wanted (m ∷ ms)) found (text_eq name wanted)
        (λ now.
          next_member-comma (find_loop wanted fuel) _ now
          ∙ find_loop-members wanted fuel now m ms (omega arith) all)

abbrev pub only : List Bytes → Option Bytes
only (v ∷ []) = some v
only _ = none

length-more_members : (ms : List (Bytes × Bytes)) → length ms < length (more_members ms)
length-more_members [] = omega arith
length-more_members ((name, value) ∷ ms) =
    let rest = more_members ms in
    omega (
      arith,
      length-more_members ms,
      length-append name (b'"' ∷ b':' ∷ (value ++ rest)),
      length-append value rest,
    )

finish :
    (vs : List Bytes)
    → (ending (sole none vs) >>= (λ (found, t). if is_empty (skip_ws t) then found else none))
      ≡ only vs
unfolding skip_ws
finish [] = refl
finish (v ∷ []) = refl
finish (v ∷ w ∷ vs) = refl

-- In the text of an object whose names need no escape and whose values are values, a name that
-- exactly one member has is found with that member's value, and any other name is not found.
pub find_member-json_object :
    (wanted : Bytes) (m : Bytes × Bytes) (ms : List (Bytes × Bytes))
    → All IsMember (m ∷ ms)
    → find_member wanted (json_object (m ∷ ms)) ≡ only (values_of wanted (m ∷ ms))
unfolding find_member skip_ws expect
find_member-json_object wanted (name, value) ms all =
    let rest = more_members ms in
    ap
      (λ (o : Option (Option Bytes × Bytes)).
        o >>= (λ (found, t). if is_empty (skip_ws t) then found else none))
      (find_loop-members wanted (suc (length (member_text (name, value) rest))) none (name, value)
        ms
        (omega (
          arith,
          length-more_members ms,
          length-append name (b'"' ∷ b':' ∷ (value ++ rest)),
          length-append value rest,
        ))
        all)
    ∙ finish (values_of wanted ((name, value) ∷ ms))

parse_full_string-quoted : (s : Bytes) → parse_full_string (quoted s) ≡ some s
unfolding parse_full_string skip_ws parse_string
parse_full_string-quoted s =
    ap
      (λ (o : Option (Bytes × Bytes)).
        o >>= (λ (value, t). if is_empty (skip_ws t) then some value else none))
      (string_chars-json_escape s [])

-- A text under a name that no other member has is read back, whatever its bytes are.
pub read_string-json_object :
    (wanted s : Bytes) (m : Bytes × Bytes) (ms : List (Bytes × Bytes))
    → All IsMember (m ∷ ms)
    → values_of wanted (m ∷ ms) ≡ quoted s ∷ []
    → read_string (json_object (m ∷ ms)) wanted ≡ some s
unfolding read_string
read_string-json_object wanted s m ms all e =
    ap (λ (o : Option Bytes). o >>= parse_full_string)
      (find_member-json_object wanted m ms all ∙ ap only e)
    ∙ parse_full_string-quoted s
