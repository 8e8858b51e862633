-- ===== src/WpaStatus.antt =====
-- The texts of the supplicant in src/platform/wpa_event_monitor.cpp: what an event says of the link,
-- and what the reply to STATUS says.
use network_service.Prelude.{
  Bool, true, false, ◌||◌, List, [], ◌∷◌, Option, none, some, ◌==◌, if◌then◌else◌, Bytes, codes,
  text_eq,
}
use network_service.Types.{
  WifiL2State, unknown, disabled, disconnected, associating, associated, handshake, connected,
  failed,
}
use network_service.Lines.{find, contains, up_to, key_value, lines}

pub record WpaStatusFact : Type 0 where
  pub l2_state : WifiL2State
  pub ssid : Bytes
  pub bssid : Bytes

abbrev pub no_status : WpaStatusFact
no_status = record { l2_state = unknown; ssid = []; bssid = [] }

unfoldable pub field_after : Bytes → Bytes → Bytes
unfolding find up_to
field_after event key = elim (find key event) [ none ↦ [] | some (place, rest) ↦ up_to b' ' rest ]

unfoldable pub normalize_event : Bytes → Bytes
unfolding find
normalize_event event = elim (find (codes "CTRL-EVENT-") event) [
  | none ↦ event
  | some (place, rest) ↦ place
]

unfoldable pub l2_state_for_event : Bytes → Option WifiL2State
unfolding contains
l2_state_for_event event =
    if contains (codes "Trying to associate") event
    then some associating
    else if contains (codes "Associated with") event
    then some associated
    else if contains (codes "4-Way Handshake") event
        || contains (codes "Key negotiation completed") event
        || contains (codes "WPA: Key negotiation") event
    then some handshake
    else if contains (codes "CTRL-EVENT-CONNECTED") event
    then some connected
    else if contains (codes "CTRL-EVENT-DISCONNECTED") event
    then some disconnected
    else if contains (codes "CTRL-EVENT-SSID-TEMP-DISABLED") event
        || contains (codes "CTRL-EVENT-ASSOC-REJECT") event
        || contains (codes "CTRL-EVENT-AUTH-REJECT") event
        || contains (codes "WRONG_KEY") event
    then some failed
    else none

unfoldable pub failure_reason_for_event : Bytes → Bytes
unfolding contains
failure_reason_for_event event =
    if contains (codes "WRONG_KEY") event
    then codes "wrong_key"
    else if contains (codes "CTRL-EVENT-SSID-TEMP-DISABLED") event
    then codes "ssid_temp_disabled"
    else if contains (codes "CTRL-EVENT-ASSOC-REJECT") event
    then codes "assoc_reject"
    else if contains (codes "CTRL-EVENT-AUTH-REJECT") event
    then codes "auth_reject"
    else []

unfoldable pub l2_state_for_status : Bytes → WifiL2State
l2_state_for_status value =
    if text_eq value (codes "COMPLETED")
    then connected
    else if text_eq value (codes "ASSOCIATING")
    then associating
    else if text_eq value (codes "ASSOCIATED")
    then associated
    else if text_eq value (codes "4WAY_HANDSHAKE") || text_eq value (codes "GROUP_HANDSHAKE")
    then handshake
    else if text_eq value (codes "INTERFACE_DISABLED")
    then disabled
    else if text_eq value (codes "DISCONNECTED")
        || text_eq value (codes "INACTIVE")
        || text_eq value (codes "SCANNING")
    then disconnected
    else unknown

-- `if (!line.empty() && line.back() == '\r') line.pop_back();`
unfoldable pub drop_return : Bytes → Bytes
drop_return [] = []
drop_return (c ∷ []) = if c == b'\r' then [] else c ∷ []
drop_return (c ∷ d ∷ t) = let rest = drop_return (d ∷ t) in c ∷ rest

-- One line of the reply: what is known so far, and whether the state is.
abbrev pub status_member : WpaStatusFact × Bool → Bytes × Bytes → WpaStatusFact × Bool
status_member (fact, have_state) (key, value) =
    if text_eq key (codes "wpa_state")
    then (record fact { l2_state = l2_state_for_status value }, true)
    else if text_eq key (codes "ssid")
    then (record fact { ssid = value }, have_state)
    else if text_eq key (codes "bssid")
    then (record fact { bssid = value }, have_state)
    else (fact, have_state)

unfoldable pub status_line : WpaStatusFact × Bool → Bytes → WpaStatusFact × Bool
unfolding drop_return key_value l2_state_for_status
status_line known line = elim (key_value (drop_return line)) [
  | none ↦ known
  | some pair ↦ status_member known pair
]

unfoldable pub status_lines : WpaStatusFact × Bool → List Bytes → WpaStatusFact × Bool
unfolding status_line
status_lines known [] = known
status_lines known (l ∷ ls) = status_lines (status_line known l) ls

unfoldable pub parse_wpa_status_reply : Bytes → WpaStatusFact × Bool
unfolding status_lines lines
parse_wpa_status_reply reply = status_lines (no_status, false) (lines reply)
