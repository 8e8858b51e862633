-- ===== src/Tests/EthernetFile.antt =====
-- A configuration that is stored, with and without a failure on the way.
use network_service.Prelude.{
  ◌≡◌, ◌⊎◌, inl, refl, true, false, [], ◌∷◌, none, some, arith, codes, text_eq, decimal,
}
use network_service.Prelude.Int.{pos, negsuc}
use network_service.Types.{EthernetConfig}
use network_service.Lines.{key_value, lines}
use network_service.Representation.{decimal_ℤ}
use network_service.EthernetText.{
  trim, trim_front, trim_back, atoi, signed_number, digits_number, read_line, read_lines,
  load_ethernet_config, serialize_ethernet_config,
}
use network_service.EthernetText.Reading.{IsClean, IsStorable, load_ethernet_config-serialize}
use network_service.EthernetFile.{
  Answers, done, failed, wrote, interrupted, Disk, save_ethernet_config,
}
use network_service.EthernetFile.Saving.{held, save_ethernet_config-refines}

abbrev fixed : EthernetConfig
fixed = record {
  iface = codes "eth0";
  method = codes "static";
  ip4 = codes "10.0.0.2";
  netmask4 = codes "255.0.0.0";
  gateway4 = [];
  dns4 = codes "1.1.1.1 8.8.8.8";
  route_metric = negsuc 4;
  dns_enabled = false;
}

pub IsClean-ip : IsClean (codes "10.0.0.2")
unfolding trim trim_front trim_back
IsClean-ip = record { no_end = omega arith; trimmed = refl }

pub IsClean-mask : IsClean (codes "255.0.0.0")
unfolding trim trim_front trim_back
IsClean-mask = record { no_end = omega arith; trimmed = refl }

pub IsClean-dns : IsClean (codes "1.1.1.1 8.8.8.8")
unfolding trim trim_front trim_back
IsClean-dns = record { no_end = omega arith; trimmed = refl }

pub IsClean-name : IsClean (codes "eth0")
unfolding trim trim_front trim_back
IsClean-name = record { no_end = omega arith; trimmed = refl }

pub IsClean-empty : IsClean []
unfolding trim trim_front trim_back
IsClean-empty = record { no_end = tt; trimmed = refl }

fixed-IsStorable : IsStorable fixed
fixed-IsStorable = record {
  iface = IsClean-name;
  ip4 = IsClean-ip;
  netmask4 = IsClean-mask;
  gateway4 = IsClean-empty;
  dns4 = IsClean-dns;
  named = refl;
  method = inl refl;
}

load_ethernet_config-serialize_example :
    load_ethernet_config (some (serialize_ethernet_config fixed)) [] ≡ fixed
load_ethernet_config-serialize_example = load_ethernet_config-serialize fixed [] fixed-IsStorable

-- The text comes in three writes, one of them interrupted, and the directory cannot be synced.
abbrev pub answers : Answers
answers = record {
  mkdir = done;
  opened = done;
  writes = wrote 40 ∷ interrupted ∷ wrote 30 ∷ wrote 100 ∷ [];
  write_error = codes "No space left on device";
  synced = done;
  closed = done;
  unlinked = done;
  renamed = done;
  directory_synced = failed (codes "Input/output error");
  discarded = done;
}

abbrev pub empty_disk : Disk
empty_disk = record { content = λ p. none; sequence = 0 }

save_ethernet_config-refines_example :
    let r = save_ethernet_config answers 12 (codes "/data/") fixed empty_disk in
    ((held r.1 (codes "/data/") [] ≡ held empty_disk (codes "/data/") [])
      ⊎ (held r.1 (codes "/data/") [] ≡ fixed))
    × (r.0 ≡ true → held r.1 (codes "/data/") [] ≡ fixed)
save_ethernet_config-refines_example =
    save_ethernet_config-refines answers 12 (codes "/data/") [] fixed empty_disk fixed-IsStorable

-- Blanks around a key and a value are dropped, an unknown method is DHCP, and `atoi` stops early.
loose :
    let c =
      load_ethernet_config
        (some (codes " ip4 = 10.0.0.9 \r\nnoise\nmethod=none\nroute_metric= 12x\ndns_enabled=yes"))
        (codes "lan") in
    (c.iface ≡ codes "lan")
    × (c.ip4 ≡ codes "10.0.0.9")
    × (c.method ≡ codes "dhcp")
    × (c.route_metric ≡ pos 12)
    × (c.dns_enabled ≡ true)
unfolding load_ethernet_config read_lines read_line lines key_value trim trim_front trim_back atoi
    signed_number digits_number text_eq
loose = (refl, refl, refl, refl, refl)

-- A line end in the text of the name servers ends the line in the file, and what follows it is read
-- as another member: a static configuration comes back as DHCP.
split_member :
    let c =
      load_ethernet_config
        (some (serialize_ethernet_config (record fixed { dns4 = codes "1.1.1.1\nmethod=dhcp" })))
        [] in
    (c.dns4 ≡ codes "1.1.1.1") × (c.method ≡ codes "dhcp")
unfolding load_ethernet_config serialize_ethernet_config read_lines read_line lines key_value trim
    trim_front trim_back atoi signed_number digits_number text_eq decimal_ℤ decimal
split_member = (refl, refl)
