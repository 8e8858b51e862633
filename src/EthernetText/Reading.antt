-- ===== src/EthernetText/Reading.antt =====
-- The text that was written is read back as the same configuration.
use network_service.Prelude.{
  ℕ, suc, ◌+◌, ◌*◌, ◌-◌, ◌≡◌, ◌⊎◌, inl, inr, refl, sym, ap, ◌∙◌, Bool, true, false, not, [], ◌∷◌,
  ◌++◌, append_assoc, Option, none, some, arith, if◌then◌else◌, is_empty, All, Bytes, codes,
  text_eq, decimal, digits_onto,
}
use network_service.Prelude.Int.{ℤ, pos, negsuc}
use network_service.Types.{EthernetConfig}
use network_service.Json.Number.{
  value_of, AreDigits, digits_onto-AreDigits, digits_onto-nonempty, digits_onto-value,
}
use network_service.Lines.{lines, Lacks, lines-line, key_value-pair}
use network_service.Representation.{decimal_ℤ}
use network_service.EthernetText.{
  is_blank, trim_front, trim_back, trim, line_of, serialize_ethernet_config, digits_number, negated,
  signed_number, atoi, set_member, read_line, read_lines, default_config, repaired,
  load_ethernet_config,
}

-- A text that a line can hold and `trim` leaves alone: no line end in it, no blank at its ends.
pub record IsClean (value : Bytes) : Type 0 where
  pub no_end : Lacks b'\n' value
  pub trimmed : trim value ≡ value

Lacks-append : (c : ℕ) (s t : Bytes) → Lacks c s → Lacks c t → Lacks c (s ++ t)
Lacks-append c [] t h k = k
Lacks-append c (d ∷ s) t h k = (h.0, Lacks-append c s t h.1 k)

-- One line that was written.
read_lines-line :
    (c : EthernetConfig) (key value rest : Bytes)
    → Lacks b'=' key
    → Lacks b'\n' key
    → trim key ≡ key
    → IsClean value
    → read_lines c (lines (line_of key value rest))
      ≡ read_lines (set_member key value c) (lines rest)
unfolding read_lines read_line
read_lines-line c key value rest e n k v =
    let split : lines (line_of key value rest) ≡ (key ++ (b'=' ∷ value)) ∷ lines rest =
      ap lines (sym (append_assoc key (b'=' ∷ value) (b'\n' ∷ rest)))
      ∙ lines-line (key ++ (b'=' ∷ value)) rest
          (Lacks-append b'\n' key (b'=' ∷ value) n (omega arith, v.no_end)) in
    ap (read_lines c) split
    ∙ ap
        (λ (o : Option (Bytes × Bytes)).
          read_lines
            (elim o as (λ _. EthernetConfig) [
              | none ↦ c
              | some (key, value) ↦ set_member (trim key) (trim value) c
            ])
            (lines rest))
        (key_value-pair key value e)
    ∙ ap (λ (t : Bytes). read_lines (set_member t (trim value) c) (lines rest)) k
    ∙ ap (λ (t : Bytes). read_lines (set_member key t c) (lines rest)) v.trimmed

-- Characters that are no blanks.
abbrev AreSolid : Bytes → Type 0
AreSolid = All (λ c. is_blank c ≡ false)

trim_back-AreSolid : (s : Bytes) → AreSolid s → trim_back s ≡ s
unfolding trim_back
trim_back-AreSolid [] h = refl
trim_back-AreSolid (c ∷ s) h = ground (arith, h.0, trim_back-AreSolid s h.1)

trim-AreSolid : (s : Bytes) → AreSolid s → trim s ≡ s
unfolding trim trim_front
trim-AreSolid [] h = refl
trim-AreSolid (c ∷ s) h = rw h.0 (trim_back-AreSolid (c ∷ s) h)

Lacks-AreSolid : (s : Bytes) → AreSolid s → Lacks b'\n' s
Lacks-AreSolid [] h = tt
Lacks-AreSolid (c ∷ s) h = (ground (arith, h.0), Lacks-AreSolid s h.1)

AreSolid-digits : (s : Bytes) → AreDigits s → AreSolid s
AreSolid-digits [] h = tt
AreSolid-digits (c ∷ s) h = (ground (arith, h.0), AreSolid-digits s h.1)

AreSolid-decimal_ℤ : (m : ℤ) → AreSolid (decimal_ℤ m)
unfolding decimal_ℤ decimal
AreSolid-decimal_ℤ (pos n) = AreSolid-digits _ (digits_onto-AreDigits (suc n) n [] tt)
AreSolid-decimal_ℤ (negsuc n) =
    (refl, AreSolid-digits _ (digits_onto-AreDigits (suc (suc n)) (suc n) [] tt))

solid-IsClean : (s : Bytes) → AreSolid s → IsClean s
solid-IsClean s h = record { no_end = Lacks-AreSolid s h; trimmed = trim-AreSolid s h }

digits_number-digits :
    (acc : ℕ) (ds : Bytes) → AreDigits ds → digits_number acc ds ≡ value_of acc ds
unfolding digits_number
digits_number-digits acc [] h = refl
digits_number-digits acc (c ∷ ds) h = rw h.0 (digits_number-digits (acc * 10 + (c - b'0')) ds h.1)

digits_number-decimal : (n : ℕ) → digits_number 0 (decimal n) ≡ n
unfolding decimal
digits_number-decimal n =
    digits_number-digits 0 (digits_onto (suc n) n []) (digits_onto-AreDigits (suc n) n [] tt)
    ∙ digits_onto-value (suc n) n [] (omega arith)

atoi-digits : (ds : Bytes) → AreDigits ds → is_empty ds ≡ false → atoi ds ≡ pos (digits_number 0 ds)
unfolding atoi signed_number
atoi-digits [] h e = cc
atoi-digits (c ∷ ds) h e = ground (arith, h.0)

atoi-decimal : (n : ℕ) → atoi (decimal n) ≡ pos n
unfolding decimal
atoi-decimal n =
    atoi-digits (digits_onto (suc n) n []) (digits_onto-AreDigits (suc n) n [] tt)
      (digits_onto-nonempty (suc n) n [] (inl (omega arith)))
    ∙ ap pos (digits_number-decimal n)

-- Every `int` that was printed is read back.
atoi-decimal_ℤ : (m : ℤ) → atoi (decimal_ℤ m) ≡ m
unfolding decimal_ℤ atoi signed_number
atoi-decimal_ℤ (pos n) = atoi-decimal n
atoi-decimal_ℤ (negsuc n) = ap negated (digits_number-decimal (suc n))

bit-IsClean : (b : Bool) → IsClean (if b then codes "1" else codes "0")
bit-IsClean true = solid-IsClean (codes "1") (refl, tt)
bit-IsClean false = solid-IsClean (codes "0") (refl, tt)

-- A configuration that the file can hold.
pub record IsStorable (c : EthernetConfig) : Type 0 where
  pub iface : IsClean c.iface
  pub ip4 : IsClean c.ip4
  pub netmask4 : IsClean c.netmask4
  pub gateway4 : IsClean c.gateway4
  pub dns4 : IsClean c.dns4
  pub named : is_empty c.iface ≡ false
  pub method : (c.method ≡ codes "static") ⊎ (c.method ≡ codes "dhcp")

method-IsClean : (c : EthernetConfig) → IsStorable c → IsClean c.method
method-IsClean c h = elim h.method [
  | inl e ↦ rw e (solid-IsClean (codes "static") (refl, (refl, (refl, (refl, (refl, (refl, tt)))))))
  | inr e ↦ rw e (solid-IsClean (codes "dhcp") (refl, (refl, (refl, (refl, tt)))))
]

-- A key that is written: no `=`, no line end and no blank.
abbrev IsKey : Bytes → Type 0
IsKey key = Lacks b'=' key × AreSolid key

read_member :
    (c : EthernetConfig) (key value rest : Bytes)
    → IsKey key
    → IsClean value
    → read_lines c (lines (line_of key value rest))
      ≡ read_lines (set_member key value c) (lines rest)
read_member c key value rest k v =
    read_lines-line c key value rest k.0 (Lacks-AreSolid key k.1) (trim-AreSolid key k.1) v

-- The members that the lines set, one after another.
abbrev all_members : EthernetConfig → EthernetConfig → EthernetConfig
all_members c d =
    set_member (codes "dns_enabled") (if c.dns_enabled then codes "1" else codes "0") (
      set_member (codes "route_metric") (decimal_ℤ c.route_metric) (
        set_member (codes "dns4") c.dns4 (
          set_member (codes "gateway4") c.gateway4 (
            set_member (codes "netmask4") c.netmask4 (
              set_member (codes "ip4") c.ip4
                (set_member (codes "method") c.method (set_member (codes "iface") c.iface d)))))))

read_lines-serialize :
    (c d : EthernetConfig)
    → IsStorable c
    → read_lines d (lines (serialize_ethernet_config c)) ≡ all_members c d
unfolding serialize_ethernet_config read_lines lines
read_lines-serialize c d h =
    read_member _ (codes "iface") c.iface _ (omega arith, ground arith) h.iface
    ∙ read_member _ (codes "method") c.method _ (omega arith, ground arith) (method-IsClean c h)
    ∙ read_member _ (codes "ip4") c.ip4 _ (omega arith, ground arith) h.ip4
    ∙ read_member _ (codes "netmask4") c.netmask4 _ (omega arith, ground arith) h.netmask4
    ∙ read_member _ (codes "gateway4") c.gateway4 _ (omega arith, ground arith) h.gateway4
    ∙ read_member _ (codes "dns4") c.dns4 _ (omega arith, ground arith) h.dns4
    ∙ read_member _ (codes "route_metric") (decimal_ℤ c.route_metric) _ (omega arith, ground arith)
        (solid-IsClean _ (AreSolid-decimal_ℤ c.route_metric))
    ∙ read_member _ (codes "dns_enabled") (if c.dns_enabled then codes "1" else codes "0") []
        (omega arith, ground arith) (bit-IsClean c.dns_enabled)

bit-read : (b : Bool) → not (text_eq (if b then codes "1" else codes "0") (codes "0")) ≡ b
unfolding text_eq
bit-read true = refl
bit-read false = refl

all_members_lem : (c d : EthernetConfig) → all_members c d ≡ c
unfolding text_eq
all_members_lem c d =
    ap
      (λ (m : ℤ). record c {
        route_metric = m;
        dns_enabled = not (text_eq (if c.dns_enabled then codes "1" else codes "0") (codes "0"));
      })
      (atoi-decimal_ℤ c.route_metric)
    ∙ ap (λ (b : Bool). record c { dns_enabled = b }) (bit-read c.dns_enabled)

repaired_lem : (c : EthernetConfig) (iface : Bytes) → IsStorable c → repaired iface c ≡ c
unfolding text_eq
repaired_lem c iface h = elim h.method [
  | inl e ↦ ground (arith, h.named, e)
  | inr e ↦ ground (arith, h.named, e)
]

-- A configuration whose texts hold no line end and no blank at their ends, whose interface is named
-- and whose method is one of the two is read back from its file as it was, whatever its metric is.
pub load_ethernet_config-serialize :
    (c : EthernetConfig) (iface : Bytes)
    → IsStorable c
    → load_ethernet_config (some (serialize_ethernet_config c)) iface ≡ c
unfolding load_ethernet_config
load_ethernet_config-serialize c iface h =
    ap (repaired iface)
      (read_lines-serialize c (default_config iface) h ∙ all_members_lem c (default_config iface))
    ∙ repaired_lem c iface h
