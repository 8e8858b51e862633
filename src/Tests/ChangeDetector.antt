-- ===== src/Tests/ChangeDetector.antt =====
-- A detector that has seen one snapshot.
use network_service.Prelude.{◌≡◌, ◌↔◌, refl, true, false, text_eq}
use network_service.Prelude.Int.{pos}
use network_service.Types.{NetworkSnapshot, empty_interface, empty_snapshot}
use network_service.ChangeDetector.{
  any, NetworkStateChangeDetector, new_detector, observe, interface_semantically_equal,
  route_changed, dns_changed,
}
use network_service.ChangeDetector.Changes.{meaning, any-observe_iff}

abbrev seen : NetworkStateChangeDetector
seen = record { initialized = true; previous = empty_snapshot }

-- Only the signal strength has moved.
abbrev stronger : NetworkSnapshot
stronger = record empty_snapshot { wifi = record empty_interface { signal_dbm = pos 7 } }

abbrev named : NetworkSnapshot
named = record empty_snapshot { dns_available = true }

any-observe_iff_example :
    (any (observe seen stronger).1 ≡ false) ↔ (meaning empty_snapshot ≡ meaning stronger)
any-observe_iff_example = any-observe_iff seen stronger refl

strength_is_quiet : any (observe seen stronger).1 ≡ false
unfolding any observe interface_semantically_equal route_changed dns_changed text_eq
strength_is_quiet = refl

dns_is_told :
    (observe seen named).1 ≡ record { eth = false; wifi = false; route = false; dns = true }
unfolding observe interface_semantically_equal route_changed dns_changed text_eq
dns_is_told = refl

first_is_quiet : any (observe new_detector named).1 ≡ false
unfolding any observe
first_is_quiet = refl
