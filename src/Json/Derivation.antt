-- ===== src/Json/Derivation.antt =====
-- The scanner follows the calls of the grammar, and the tree of its calls is finite.
use network_service.Prelude.{
  ℕ, zero, suc, ◌+◌, ◌*◌, ◌≤◌, ◌<◌, ◌≡◌, refl, Bool, true, false, Option, none, some, arith, ltb,
  length, Bytes, if◌then◌else◌,
}
use network_service.Json.{
  skip_string, skip_ws, expect, starts_with, skip_value_on, skip_array_on, skip_items_on,
  skip_object_on, skip_members_on, skip_value, json_fuel, k_max_json_depth,
}
use network_service.Json.Suffix.{Behind, length-Proper, expect-Behind, skip_string-Behind}
use network_service.Json.Scan.{skip_value_on-Behind}
use network_service.Json.Fuel.{ws_shrinks}
use network_service.Json.Grammar.{
  Job, value, array, items, object, members, skip_atom, Scans, too_deep, a_string, an_object,
  an_array, an_atom, no_bracket, empty_array, array_of, no_item, last_item, no_item_comma,
  more_items, no_brace, empty_object, object_of, no_key, no_colon, no_value, last_member,
  no_member_comma, more_members,
}

value_by :
    (t : Bytes) (d : ℕ) (p q : Option Bytes) (deep s b a : Bool)
    → ltb k_max_json_depth d ≡ deep
    → starts_with b'"' (skip_ws t) ≡ s
    → starts_with b'{' (skip_ws t) ≡ b
    → starts_with b'[' (skip_ws t) ≡ a
    → Scans object (skip_ws t) d p
    → Scans array (skip_ws t) d q
    → Scans value t d (
        if deep
        then none
        else if s
        then skip_string (skip_ws t)
        else if b
        then p
        else if a
        then q
        else skip_atom (skip_ws t))
value_by t d p q true s b a ed es eb ea x y = too_deep value t d ed
value_by t d p q false true b a ed es eb ea x y = a_string t d ed es
value_by t d p q false false true a ed es eb ea x y = an_object t d p ed eb x
value_by t d p q false false false true ed es eb ea x y = an_array t d q ed ea y
value_by t d p q false false false false ed es eb ea x y = an_atom t d ed es eb ea

-- A loop that goes well on every shorter text.
abbrev Below : Job → Bytes → ℕ → (Bytes → Option Bytes) → Type 0
Below job t d k = (v : Bytes) → length v < length t → Scans job v d (k v)

array_by :
    (t : Bytes) (d : ℕ) (k : Bytes → Option Bytes) (deep : Bool) (o : Option Bytes)
    → ltb k_max_json_depth d ≡ deep
    → expect b'[' t ≡ o
    → Behind t o
    → Below items t d k
    → Scans array t d (
        if deep then none else elim o as (λ _. Option Bytes) [
          | none ↦ none
          | some u ↦ elim (expect b']' (skip_ws u)) as (λ _. Option Bytes) [
            | some v ↦ some v
            | none ↦ k (skip_ws u)
          ]
        ])
array_by t d k true o ed e b h = too_deep array t d ed
array_by t d k false none ed e b h = no_bracket t d e
array_by t d k false (some u) ed e b h = by_close (expect b']' (skip_ws u)) refl
  where
    by_close :
        (c : Option Bytes)
        → expect b']' (skip_ws u) ≡ c
        → Scans array t d (elim c as (λ _. Option Bytes) [ some v ↦ some v | none ↦ k (skip_ws u) ])
    by_close (some v) ec = empty_array t u v d ed e ec
    by_close none ec =
        array_of t u d _ ed e ec (h (skip_ws u) (omega (arith, ws_shrinks u, length-Proper u t b)))

object_by :
    (t : Bytes) (d : ℕ) (k : Bytes → Option Bytes) (deep : Bool) (o : Option Bytes)
    → ltb k_max_json_depth d ≡ deep
    → expect b'{' t ≡ o
    → Behind t o
    → Below members t d k
    → Scans object t d (
        if deep then none else elim o as (λ _. Option Bytes) [
          | none ↦ none
          | some u ↦ elim (expect b'}' (skip_ws u)) as (λ _. Option Bytes) [
            | some v ↦ some v
            | none ↦ k (skip_ws u)
          ]
        ])
object_by t d k true o ed e b h = too_deep object t d ed
object_by t d k false none ed e b h = no_brace t d e
object_by t d k false (some u) ed e b h = by_close (expect b'}' (skip_ws u)) refl
  where
    by_close :
        (c : Option Bytes)
        → expect b'}' (skip_ws u) ≡ c
        → Scans object t d
            (elim c as (λ _. Option Bytes) [ some v ↦ some v | none ↦ k (skip_ws u) ])
    by_close (some v) ec = empty_object t u v d ed e ec
    by_close none ec =
        object_of t u d _ ed e ec (h (skip_ws u) (omega (arith, ws_shrinks u, length-Proper u t b)))

items_by :
    (t : Bytes) (d : ℕ) (k : Bytes → Option Bytes) (o : Option Bytes)
    → Scans value t (d + 1) o
    → Behind t o
    → Below items t d k
    → Scans items t d (elim o as (λ _. Option Bytes) [
      | none ↦ none
      | some u ↦ elim (expect b']' (skip_ws u)) as (λ _. Option Bytes) [
        | some v ↦ some v
        | none ↦ elim (expect b',' (skip_ws u)) as (λ _. Option Bytes) [
          | none ↦ none
          | some v ↦ k (skip_ws v)
        ]
      ]
    ])
items_by t d k none s b h = no_item t d s
items_by t d k (some u) s b h =
    by_end (expect b']' (skip_ws u)) (expect b',' (skip_ws u)) refl refl
      (expect-Behind b',' (skip_ws u))
  where
    by_end :
        (c m : Option Bytes)
        → expect b']' (skip_ws u) ≡ c
        → expect b',' (skip_ws u) ≡ m
        → Behind (skip_ws u) m
        → Scans items t d (elim c as (λ _. Option Bytes) [
          | some v ↦ some v
          | none ↦ elim m as (λ _. Option Bytes) [ none ↦ none | some v ↦ k (skip_ws v) ]
        ])
    by_end (some v) m ec em b' = last_item t u v d s ec
    by_end none none ec em b' = no_item_comma t u d s ec em
    by_end none (some v) ec em b' = more_items t u v d _ s ec em (
        h (skip_ws v) (
          omega (
            arith,
            ws_shrinks v,
            ws_shrinks u,
            length-Proper u t b,
            length-Proper v (skip_ws u) b',
          )))

-- Behind a key and its colon.
members_by :
    (t u v : Bytes) (d : ℕ) (k : Bytes → Option Bytes) (o : Option Bytes)
    → skip_string t ≡ some u
    → expect b':' (skip_ws u) ≡ some v
    → length v < length t
    → Scans value (skip_ws v) (d + 1) o
    → Behind (skip_ws v) o
    → Below members t d k
    → Scans members t d (elim o as (λ _. Option Bytes) [
      | none ↦ none
      | some x ↦ elim (expect b'}' (skip_ws x)) as (λ _. Option Bytes) [
        | some y ↦ some y
        | none ↦ elim (expect b',' (skip_ws x)) as (λ _. Option Bytes) [
          | none ↦ none
          | some y ↦ k (skip_ws y)
        ]
      ]
    ])
members_by t u v d k none ek ev l s b h = no_value t u v d ek ev s
members_by t u v d k (some x) ek ev l s b h =
    by_end (expect b'}' (skip_ws x)) (expect b',' (skip_ws x)) refl refl
      (expect-Behind b',' (skip_ws x))
  where
    by_end :
        (c m : Option Bytes)
        → expect b'}' (skip_ws x) ≡ c
        → expect b',' (skip_ws x) ≡ m
        → Behind (skip_ws x) m
        → Scans members t d (elim c as (λ _. Option Bytes) [
          | some y ↦ some y
          | none ↦ elim m as (λ _. Option Bytes) [ none ↦ none | some y ↦ k (skip_ws y) ]
        ])
    by_end (some y) m ec em b' = last_member t u v x y d ek ev s ec
    by_end none none ec em b' = no_member_comma t u v x d ek ev s ec em
    by_end none (some y) ec em b' = more_members t u v x y d _ ek ev s ec em (
        h (skip_ws y) (
          omega (
            arith,
            ws_shrinks y,
            ws_shrinks x,
            ws_shrinks v,
            length-Proper x (skip_ws v) b,
            length-Proper y (skip_ws x) b',
            l,
          )))

key_by :
    (t : Bytes) (d : ℕ) (j k : Bytes → Option Bytes) (o : Option Bytes)
    → skip_string t ≡ o
    → Behind t o
    → ((v : Bytes) → length v < length t → Scans value v (d + 1) (j v) × Behind v (j v))
    → Below members t d k
    → Scans members t d (elim o as (λ _. Option Bytes) [
      | none ↦ none
      | some u ↦ elim (expect b':' (skip_ws u)) as (λ _. Option Bytes) [
        | none ↦ none
        | some v ↦ elim (j (skip_ws v)) as (λ _. Option Bytes) [
          | none ↦ none
          | some x ↦ elim (expect b'}' (skip_ws x)) as (λ _. Option Bytes) [
            | some y ↦ some y
            | none ↦ elim (expect b',' (skip_ws x)) as (λ _. Option Bytes) [
              | none ↦ none
              | some y ↦ k (skip_ws y)
            ]
          ]
        ]
      ]
    ])
key_by t d j k none e b hj hk = no_key t d e
key_by t d j k (some u) e b hj hk =
    by_colon (expect b':' (skip_ws u)) refl (expect-Behind b':' (skip_ws u))
  where
    by_colon :
        (c : Option Bytes)
        → expect b':' (skip_ws u) ≡ c
        → Behind (skip_ws u) c
        → Scans members t d (elim c as (λ _. Option Bytes) [
          | none ↦ none
          | some v ↦ elim (j (skip_ws v)) as (λ _. Option Bytes) [
            | none ↦ none
            | some x ↦ elim (expect b'}' (skip_ws x)) as (λ _. Option Bytes) [
              | some y ↦ some y
              | none ↦ elim (expect b',' (skip_ws x)) as (λ _. Option Bytes) [
                | none ↦ none
                | some y ↦ k (skip_ws y)
              ]
            ]
          ]
        ])
    by_colon none ec b' = no_colon t u d e ec
    by_colon (some v) ec b' =
        let l : length v < length t =
          omega (arith, ws_shrinks u, length-Proper u t b, length-Proper v (skip_ws u) b') in
        let scanned = hj (skip_ws v) (omega (arith, l, ws_shrinks v)) in
        members_by t u v d k (j (skip_ws v)) e ec l scanned.0 scanned.1 hk

mutual
  unfolding skip_value_on

  value_scans :
      (f : ℕ) (t : Bytes) (d : ℕ) → 3 * length t + 2 ≤ f → Scans value t d (skip_value_on f t d)
  value_scans zero t d h = absurd (omega arith)
  value_scans (suc f) t d h =
      let s = ws_shrinks t in
      value_by t d (skip_object_on f (skip_ws t) d) (skip_array_on f (skip_ws t) d) _ _ _ _ refl
        refl refl refl (object_scans f (skip_ws t) d (omega arith))
        (array_scans f (skip_ws t) d (omega arith))

  array_scans :
      (f : ℕ) (t : Bytes) (d : ℕ) → 3 * length t + 1 ≤ f → Scans array t d (skip_array_on f t d)
  array_scans zero t d h = absurd (omega arith)
  array_scans (suc f) t d h =
      array_by t d (λ u. skip_items_on f u d) _ (expect b'[' t) refl refl (expect-Behind b'[' t)
        (λ v l. items_scans f v d (omega arith))

  items_scans :
      (f : ℕ) (t : Bytes) (d : ℕ) → 3 * length t + 3 ≤ f → Scans items t d (skip_items_on f t d)
  items_scans zero t d h = absurd (omega arith)
  items_scans (suc f) t d h =
      items_by t d (λ u. skip_items_on f u d) (skip_value_on f t (d + 1))
        (value_scans f t (d + 1) (omega arith)) (skip_value_on-Behind f t (d + 1))
        (λ v l. items_scans f v d (omega arith))

  object_scans :
      (f : ℕ) (t : Bytes) (d : ℕ) → 3 * length t + 1 ≤ f → Scans object t d (skip_object_on f t d)
  object_scans zero t d h = absurd (omega arith)
  object_scans (suc f) t d h =
      object_by t d (λ u. skip_members_on f u d) _ (expect b'{' t) refl refl (expect-Behind b'{' t)
        (λ v l. members_scans f v d (omega arith))

  members_scans :
      (f : ℕ) (t : Bytes) (d : ℕ) → 3 * length t + 3 ≤ f → Scans members t d (skip_members_on f t d)
  members_scans zero t d h = absurd (omega arith)
  members_scans (suc f) t d h =
      key_by t d (λ u. skip_value_on f u (d + 1)) (λ u. skip_members_on f u d) (skip_string t) refl
        (skip_string-Behind t)
        (λ v l. (value_scans f v (d + 1) (omega arith), skip_value_on-Behind f v (d + 1)))
        (λ v l. members_scans f v d (omega arith))

-- Every scan of a value ends by the tests of the code: there is a finite tree of calls, in which each
-- loop and each call goes on from where the last one ended, and whose result is that of
-- `skip_value`, for any text and depth.
pub skip_value-Scans : (t : Bytes) (d : ℕ) → Scans value t d (skip_value t d)
unfolding skip_value
skip_value-Scans t d = value_scans (json_fuel t) t d (omega arith)
