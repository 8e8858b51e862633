-- ===== src/WifiProfile.antt =====
-- src/service/wifi_profile_policy.cpp and its header: how saved Wi-Fi profiles are activated,
-- created, forgotten and changed. The platform ports are injected functions over a world `W`; a
-- port takes the error text by reference, so it is given one and returns one. `none` is an empty
-- `std::function`.
pub mod Log
pub mod Traces
use network_service.Prelude.{
  ℕ, Bool, true, false, not, ◌&&◌, ◌||◌, List, [], Option, none, some, if◌then◌else◌, is_empty,
  Bytes, codes,
}
use network_service.Prelude.Int.{ℤ, pos, ltb_ℤ}

-- What a port returns, with the error text and the world that it leaves.
pub record Out (A W : Type 0) : Type 0 where
  pub value : A
  pub error : Bytes
  pub world : W

pub record WifiProfilePolicyOps (W : Type 0) : Type 0 where
  pub ensure_interface_up : Option (Bytes → W → Out Bool W)
  pub create_profile : Option (Bytes → Bytes → Bytes → W → Out ℤ W)
  pub find_profile : Option (Bytes → Bytes → W → Out ℤ W)
  pub disable_all_profiles : Option (Bytes → W → Out Bool W)
  pub set_profile_enabled : Option (ℤ → Bool → Bytes → W → Out Bool W)
  pub select_profile : Option (ℤ → Bytes → W → Out Bool W)
  pub remove_profile : Option (ℤ → Bytes → W → Out Bool W)
  pub save_profiles : Option (Bytes → W → Out Bool W)

abbrev pub is_negative : ℤ → Bool
is_negative n = ltb_ℤ n (pos 0)

module _ {W : Type 0} where
  abbrev pub refuse : Bytes → W → Out Bool W
  refuse error w = record { value = false; error = error; world = w }

  abbrev pub unavailable : W → Out Bool W
  unavailable w = refuse (codes "Wi-Fi profile platform ports are unavailable") w

  -- A port whose result and error text are thrown away, called if it is set.
  unfoldable pub best_effort : Option (Bytes → W → Out Bool W) → W → W
  best_effort none w = w
  best_effort (some port) w = (port [] w).world

  unfoldable pub persist_if : Bool → Option (Bytes → W → Out Bool W) → W → W
  unfolding best_effort
  persist_if persist save w = if persist then best_effort save w else w

  -- `activate_profile` with its ports at hand.
  unfoldable pub activate_ports :
      WifiProfilePolicyOps W
      → ℤ
      → Bool
      → (Bytes → W → Out Bool W)
      → (ℤ → Bool → Bytes → W → Out Bool W)
      → (ℤ → Bytes → W → Out Bool W)
      → W
      → Out Bool W
  unfolding persist_if
  activate_ports ops network_id persist disable_all set_enabled select w =
      let isolated = disable_all [] w in
      let enabled = set_enabled network_id true [] isolated.world in
      let selected = select network_id enabled.error enabled.world in
      if not enabled.value then enabled else if not selected.value then selected else record {
        value = true;
        error = [];
        world = persist_if persist ops.save_profiles selected.world;
      }

  unfoldable pub activate_profile : WifiProfilePolicyOps W → ℤ → Bool → W → Out Bool W
  unfolding activate_ports
  activate_profile ops network_id persist w =
      if is_negative network_id
      then refuse (codes "invalid Wi-Fi profile id") w
      else elim ops.disable_all_profiles [
        | none ↦ unavailable w
        | some disable_all ↦ elim ops.set_profile_enabled [
          | none ↦ unavailable w
          | some set_enabled ↦ elim ops.select_profile [
            | none ↦ unavailable w
            | some select ↦ activate_ports ops network_id persist disable_all set_enabled select w
          ]
        ]
      ]

  -- The rollback of a profile that could not be activated.
  unfoldable pub roll_back : WifiProfilePolicyOps W → ℤ → W → W
  unfolding best_effort
  roll_back ops network_id w = elim ops.remove_profile [
    | none ↦ w
    | some remove ↦
        let removed = remove network_id [] w in
        if is_empty removed.error
        then best_effort ops.save_profiles removed.world
        else removed.world
  ]

  unfoldable pub activate_new : WifiProfilePolicyOps W → ℤ → W → Out Bool W
  unfolding roll_back
  activate_new ops network_id w =
      let activated = activate_profile ops network_id true w in
      if activated.value
      then activated
      else refuse activated.error (roll_back ops network_id activated.world)

  unfoldable pub connect_new : WifiProfilePolicyOps W → Bytes → Bytes → W → Out Bool W
  unfolding activate_new
  connect_new ops ssid password w =
      if is_empty ssid then refuse (codes "ssid is required") w else elim ops.ensure_interface_up [
        | none ↦ unavailable w
        | some up ↦ elim ops.create_profile [
          | none ↦ unavailable w
          | some create ↦
              let raised = up [] w in
              let created = create ssid password raised.error raised.world in
              if not raised.value
              then raised
              else if is_negative created.value
              then refuse created.error created.world
              else activate_new ops created.value created.world
        ]
      ]

  unfoldable pub connect_saved : WifiProfilePolicyOps W → Bytes → W → Out Bool W
  connect_saved ops ssid w =
      if is_empty ssid then refuse (codes "ssid is required") w else elim ops.ensure_interface_up [
        | none ↦ unavailable w
        | some up ↦ elim ops.find_profile [
          | none ↦ unavailable w
          | some find ↦
              let raised = up [] w in
              let found = find ssid raised.error raised.world in
              if not raised.value
              then raised
              else if is_negative found.value
              then refuse found.error found.world
              else activate_profile ops found.value false found.world
        ]
      ]

  unfoldable pub forget : WifiProfilePolicyOps W → Bytes → W → Out Bool W
  forget ops ssid w =
      if is_empty ssid then refuse (codes "ssid is required") w else elim ops.find_profile [
        | none ↦ unavailable w
        | some find ↦ elim ops.remove_profile [
          | none ↦ unavailable w
          | some remove ↦ elim ops.save_profiles [
            | none ↦ unavailable w
            | some save ↦
                let found = find ssid [] w in
                let removed = remove found.value found.error found.world in
                if is_negative found.value
                then refuse found.error found.world
                else if not removed.value
                then removed
                else save removed.error removed.world
          ]
        ]
      ]

  unfoldable pub set_autoconnect : WifiProfilePolicyOps W → Bytes → Bool → W → Out Bool W
  set_autoconnect ops ssid enabled w =
      if is_empty ssid then refuse (codes "ssid is required") w else elim ops.find_profile [
        | none ↦ unavailable w
        | some find ↦ elim ops.set_profile_enabled [
          | none ↦ unavailable w
          | some set_enabled ↦ elim ops.save_profiles [
            | none ↦ unavailable w
            | some save ↦
                let found = find ssid [] w in
                let changed = set_enabled found.value enabled found.error found.world in
                if is_negative found.value
                then refuse found.error found.world
                else if not changed.value
                then changed
                else save changed.error changed.world
          ]
        ]
      ]
