-- ===== src/EthernetText.antt =====
-- The text of the Ethernet configuration, and the names of its directory and file, in
-- src/config/ethernet_config.cpp: how it is written, and how what is read becomes a configuration.
pub mod Reading
use network_service.Prelude.{
  ℕ, zero, suc, ◌+◌, ◌-◌, ◌*◌, ◌%◌, ◌^◌, Bool, true, false, not, ◌&&◌, ◌||◌, List, [], ◌∷◌, ◌++◌,
  Option, none, some, ◌==◌, if◌then◌else◌, is_empty, take, drop, Bytes, codes, text_eq, decimal,
}
use network_service.Prelude.Int.{ℤ, pos, negsuc}
use network_service.Types.{EthernetConfig}
use network_service.Json.{is_space, is_digit}
use network_service.Lines.{key_value, lines}
use network_service.Representation.{decimal_ℤ}

abbrev pub is_blank : ℕ → Bool
is_blank c = c == b' ' || c == b'\t' || c == b'\r' || c == b'\n'

unfoldable pub trim_front : Bytes → Bytes
trim_front [] = []
trim_front (c ∷ t) = let rest = trim_front t in if is_blank c then rest else c ∷ t

unfoldable pub trim_back : Bytes → Bytes
trim_back [] = []
trim_back (c ∷ t) = let rest = trim_back t in if is_empty rest && is_blank c then [] else c ∷ rest

unfoldable pub trim : Bytes → Bytes
unfolding trim_front trim_back
trim value = trim_back (trim_front value)

abbrev pub line_of : Bytes → Bytes → Bytes → Bytes
line_of key value rest = key ++ (b'=' ∷ (value ++ (b'\n' ∷ rest)))

unfoldable pub serialize_ethernet_config : EthernetConfig → Bytes
unfolding decimal_ℤ
serialize_ethernet_config c = line_of (codes "iface") c.iface (
    line_of (codes "method") c.method (
      line_of (codes "ip4") c.ip4 (
        line_of (codes "netmask4") c.netmask4 (
          line_of (codes "gateway4") c.gateway4 (
            line_of (codes "dns4") c.dns4 (
              line_of (codes "route_metric") (decimal_ℤ c.route_metric) (
                line_of (codes "dns_enabled") (if c.dns_enabled then codes "1" else codes "0")
                  [])))))))

-- `if (!dir.empty() && dir.back() == '/') dir.pop_back();`
unfoldable pub drop_slash : Bytes → Bytes
drop_slash [] = []
drop_slash (c ∷ []) = if c == b'/' then [] else c ∷ []
drop_slash (c ∷ d ∷ t) = let rest = drop_slash (d ∷ t) in c ∷ rest

unfoldable pub config_directory : Bytes → Bytes
unfolding drop_slash
config_directory config_dir =
    drop_slash (if is_empty config_dir then codes "/dnake/data" else config_dir)

unfoldable pub ethernet_config_path : Bytes → Bytes
unfolding config_directory
ethernet_config_path config_dir = config_directory config_dir ++ codes "/smart_hmi_ethernet.conf"

-- `atoi`: blanks, a sign and digits. The standard leaves a value past `int` undefined; here it is
-- the number that the digits stand for.
unfoldable pub digits_number : ℕ → Bytes → ℕ
digits_number acc [] = acc
digits_number acc (c ∷ t) =
    let rest = digits_number (acc * 10 + (c - b'0')) t in if is_digit c then rest else acc

abbrev pub negated : ℕ → ℤ
negated zero = pos 0
negated (suc n) = negsuc n

unfoldable pub signed_number : Bytes → ℤ
unfolding digits_number
signed_number [] = pos 0
signed_number (c ∷ t) =
    if c == b'-'
    then negated (digits_number 0 t)
    else if c == b'+'
    then pos (digits_number 0 t)
    else pos (digits_number 0 (c ∷ t))

unfoldable pub atoi : Bytes → ℤ
unfolding signed_number
atoi [] = pos 0
atoi (c ∷ t) = let rest = atoi t in if is_space c then rest else signed_number (c ∷ t)

-- The member that a line sets.
abbrev pub set_member : Bytes → Bytes → EthernetConfig → EthernetConfig
set_member key value c =
    if text_eq key (codes "iface")
    then record c { iface = value }
    else if text_eq key (codes "method")
    then record c { method = value }
    else if text_eq key (codes "ip4")
    then record c { ip4 = value }
    else if text_eq key (codes "netmask4")
    then record c { netmask4 = value }
    else if text_eq key (codes "gateway4")
    then record c { gateway4 = value }
    else if text_eq key (codes "dns4")
    then record c { dns4 = value }
    else if text_eq key (codes "route_metric")
    then record c { route_metric = atoi value }
    else if text_eq key (codes "dns_enabled")
    then record c { dns_enabled = not (text_eq value (codes "0")) }
    else c

unfoldable pub read_line : EthernetConfig → Bytes → EthernetConfig
unfolding key_value trim atoi
read_line c line = elim (key_value line) [
  | none ↦ c
  | some (key, value) ↦ set_member (trim key) (trim value) c
]

unfoldable pub read_lines : EthernetConfig → List Bytes → EthernetConfig
unfolding read_line
read_lines c [] = c
read_lines c (l ∷ ls) = read_lines (read_line c l) ls

abbrev pub iface_or_default : Bytes → Bytes
iface_or_default iface = if is_empty iface then codes "eth0" else iface

abbrev pub default_config : Bytes → EthernetConfig
default_config iface = record {
  iface = iface_or_default iface;
  method = codes "dhcp";
  ip4 = [];
  netmask4 = [];
  gateway4 = [];
  dns4 = [];
  route_metric = pos 10;
  dns_enabled = true;
}

-- Behind the loop: an empty interface and an unknown method fall back.
abbrev pub repaired : Bytes → EthernetConfig → EthernetConfig
repaired iface c = record c {
  iface = if is_empty c.iface then iface_or_default iface else c.iface;
  method = if not (text_eq c.method (codes "static")) then codes "dhcp" else c.method;
}

-- `none` is a file that cannot be opened.
unfoldable pub load_ethernet_config : Option Bytes → Bytes → EthernetConfig
unfolding read_lines lines
load_ethernet_config none iface = default_config iface
load_ethernet_config (some content) iface =
    repaired iface (read_lines (default_config iface) (lines content))
