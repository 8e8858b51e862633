-- ===== src/Business/Calls.antt =====
-- A daemon that writes down its calls, and what requests make it do.
use network_service.Prelude.{
  ℕ, ◌≡◌, ◌≢◌, refl, Bool, true, false, List, ◌∷◌, Option, none, some, arith, if◌then◌else◌,
  is_empty, Bytes, codes, text_eq,
}
use network_service.Prelude.Int.{pos}
use network_service.Types.{RoutePolicy, manual_metric}
use network_service.Representation.{
  WifiCommandResult, route_policy_payload, ethernet_config_payload, wifi_saved_payload,
  wifi_scan_status_payload, wifi_enabled_payload, wifi_command_payload,
}
use network_service.BusinessReader.{read_string, read_bool, parse_product_route_policy}
use network_service.Business.{
  NetworkOperationResult, NetworkDaemon, response_error, invalid_params, operation_response, reject,
  with_param, nonempty, policy_param, apply_policy, set_static, set_enabled, connect, by_ssid,
  autoconnect, dispatch_business_request,
}

pub data DaemonCall : Type 0 where
  got_policy got_config set_dhcp scan_started scan_asked listed disconnected : DaemonCall
  applied : RoutePolicy → DaemonCall
  made_static : Bytes → Bytes → Bytes → Bytes → DaemonCall
  enabled : Bool → DaemonCall
  connected : Bytes → Bytes → DaemonCall
  connected_saved forgot : Bytes → DaemonCall
  made_auto : Bytes → Bool → DaemonCall

pub record Logged (W : Type 0) : Type 0 where
  pub inner : W
  pub calls : List DaemonCall

-- What a client may make the daemon do: no empty network name, and no policy of metrics.
abbrev pub IsAllowed : DaemonCall → Type 0
IsAllowed (applied p) = p ≢ manual_metric
IsAllowed (connected ssid password) = is_empty ssid ≡ false
IsAllowed (connected_saved ssid) = is_empty ssid ≡ false
IsAllowed (forgot ssid) = is_empty ssid ≡ false
IsAllowed (made_auto ssid b) = is_empty ssid ≡ false
IsAllowed _ = Unit

module _ {W : Type 0} where
  abbrev pub noted :
      {A : Type 0}
      → DaemonCall
      → (W → NetworkOperationResult A × W)
      → Logged W
      → NetworkOperationResult A × Logged W
  noted call operation w =
      let (r, v) = operation w.inner in (r, record { inner = v; calls = call ∷ w.calls })

  abbrev pub noting : NetworkDaemon W → NetworkDaemon (Logged W)
  noting d = record {
    route_policy_get = noted got_policy d.route_policy_get;
    route_policy_apply = λ p. noted (applied p) (d.route_policy_apply p);
    eth_get_config = noted got_config d.eth_get_config;
    eth_set_dhcp = noted set_dhcp d.eth_set_dhcp;
    eth_set_static = λ i m g n. noted (made_static i m g n) (d.eth_set_static i m g n);
    wifi_scan_start = noted scan_started d.wifi_scan_start;
    wifi_scan_status = noted scan_asked d.wifi_scan_status;
    wifi_set_enabled = λ b. noted (enabled b) (d.wifi_set_enabled b);
    wifi_connect = λ s p. noted (connected s p) (d.wifi_connect s p);
    wifi_connect_saved = λ s. noted (connected_saved s) (d.wifi_connect_saved s);
    wifi_list_saved = noted listed d.wifi_list_saved;
    wifi_forget = λ s. noted (forgot s) (d.wifi_forget s);
    wifi_set_autoconnect = λ s b. noted (made_auto s b) (d.wifi_set_autoconnect s b);
    wifi_disconnect = noted disconnected d.wifi_disconnect;
  }

  -- One call that is allowed, or none and a refusal, which leaves the world as it was.
  pub data IsServed (id : ℕ) (w : Logged W) : Bytes × Logged W → Type 0 where
    called :
        (bytes : Bytes) (call : DaemonCall) (v : Logged W)
        → v.calls ≡ call ∷ w.calls
        → IsAllowed call
        → IsServed id w (bytes, v)
    rejected : (message : Bytes) → IsServed id w (invalid_params id message, w)
    unknown :
        IsServed id w
          (response_error id (pos 404) (codes "METHOD_NOT_FOUND") (codes "unknown method"), w)

nonempty_lem : (o : Option Bytes) (s : Bytes) → nonempty o ≡ some s → is_empty s ≡ false
nonempty_lem none s h = cc
nonempty_lem (some t) s h = ground arith

policy_param_lem :
    (o : Option Bytes) (p : RoutePolicy) → policy_param o ≡ some p → p ≢ manual_metric
unfolding parse_product_route_policy
policy_param_lem none p h = cc
policy_param_lem (some t) p h = ground arith

module _ {W : Type 0} (d : NetworkDaemon W) (id : ℕ) (w : Logged W) where
  if-IsServed :
      (b : Bool) (s t : Bytes × Logged W)
      → IsServed id w s
      → IsServed id w t
      → IsServed id w (if b then s else t)
  if-IsServed true s t h k = h
  if-IsServed false s t h k = k

  with_param-IsServed :
      {A : Type 0} (o : Option A) (message : Bytes) (next : A → Bytes × Logged W)
      → ((a : A) → o ≡ some a → IsServed id w (next a))
      → IsServed id w (with_param o (reject id message w) next)
  with_param-IsServed none message next h = rejected message
  with_param-IsServed (some a) message next h = h a refl

  operation-IsServed :
      {A : Type 0} (encoder : A → Bytes) (call : DaemonCall) (v : Logged W)
      (r : NetworkOperationResult A)
      → v.calls ≡ call ∷ w.calls
      → IsAllowed call
      → IsServed id w (operation_response id encoder (r, v))
  unfolding operation_response
  operation-IsServed encoder call v r e a = called _ call v e a

  plain-IsServed :
      {A : Type 0} (encoder : A → Bytes) (call : DaemonCall)
      (operation : W → NetworkOperationResult A × W)
      → IsAllowed call
      → IsServed id w (operation_response id encoder (noted call operation w))
  plain-IsServed encoder call operation a =
      let o = noted call operation w in operation-IsServed encoder call o.1 o.0 refl a

  apply_policy-IsServed : (params : Bytes) → IsServed id w (apply_policy (noting d) id params w)
  unfolding apply_policy
  apply_policy-IsServed params =
      with_param-IsServed (policy_param (read_string params (codes "policy"))) _ _ (λ p e.
        plain-IsServed route_policy_payload (applied p) (d.route_policy_apply p)
          (policy_param_lem (read_string params (codes "policy")) p e))

  set_static-IsServed : (params : Bytes) → IsServed id w (set_static (noting d) id params w)
  unfolding set_static
  set_static-IsServed params = with_param-IsServed (read_string params (codes "ip")) _ _ (λ i e.
      with_param-IsServed (read_string params (codes "mask")) _ _ (λ m e.
        with_param-IsServed (read_string params (codes "gateway")) _ _ (λ g e.
          with_param-IsServed (read_string params (codes "dns")) _ _ (λ n e.
            plain-IsServed ethernet_config_payload (made_static i m g n) (d.eth_set_static i m g n)
              tt))))

  set_enabled-IsServed : (params : Bytes) → IsServed id w (set_enabled (noting d) id params w)
  unfolding set_enabled
  set_enabled-IsServed params =
      with_param-IsServed (read_bool params (codes "enabled")) _ _
        (λ b e. plain-IsServed wifi_enabled_payload (enabled b) (d.wifi_set_enabled b) tt)

  connect-IsServed : (params : Bytes) → IsServed id w (connect (noting d) id params w)
  unfolding connect
  connect-IsServed params =
      with_param-IsServed (nonempty (read_string params (codes "ssid"))) _ _ (λ s e.
        with_param-IsServed (read_string params (codes "password")) _ _ (λ p e'.
          plain-IsServed wifi_command_payload (connected s p) (d.wifi_connect s p)
            (nonempty_lem (read_string params (codes "ssid")) s e)))

  by_ssid-IsServed :
      (call : Bytes → DaemonCall)
      (operation : Bytes → W → NetworkOperationResult WifiCommandResult × W)
      (message params : Bytes)
      → ((s : Bytes) → is_empty s ≡ false → IsAllowed (call s))
      → IsServed id w (by_ssid (λ s. noted (call s) (operation s)) message id params w)
  unfolding by_ssid
  by_ssid-IsServed call operation message params allowed =
      with_param-IsServed (nonempty (read_string params (codes "ssid"))) _ _ (λ s e.
        plain-IsServed wifi_command_payload (call s) (operation s)
          (allowed s (nonempty_lem (read_string params (codes "ssid")) s e)))

  autoconnect-IsServed : (params : Bytes) → IsServed id w (autoconnect (noting d) id params w)
  unfolding autoconnect
  autoconnect-IsServed params =
      with_param-IsServed (nonempty (read_string params (codes "ssid"))) _ _ (λ s e.
        with_param-IsServed (read_bool params (codes "enabled")) _ _ (λ b e'.
          plain-IsServed wifi_command_payload (made_auto s b) (d.wifi_set_autoconnect s b)
            (nonempty_lem (read_string params (codes "ssid")) s e)))

  -- Whatever the method and the parameters are, a request makes the daemon do one operation at
  -- most, which has no empty network name and no policy of metrics; and where it makes it do none,
  -- the answer refuses the parameters or the method, and nothing has changed.
  pub dispatch_business_request-IsServed :
      (method params : Bytes)
      → IsServed id w (dispatch_business_request (noting d) id method params w)
  unfolding dispatch_business_request
  dispatch_business_request-IsServed method params =
      if-IsServed (text_eq method (codes "network.route_policy.get")) _ _
        (plain-IsServed route_policy_payload got_policy d.route_policy_get tt)
        (if-IsServed (text_eq method (codes "network.route_policy.apply")) _ _
          (apply_policy-IsServed params)
          (if-IsServed (text_eq method (codes "eth.get_config")) _ _
            (plain-IsServed ethernet_config_payload got_config d.eth_get_config tt)
            (if-IsServed (text_eq method (codes "eth.set_dhcp")) _ _
              (plain-IsServed ethernet_config_payload set_dhcp d.eth_set_dhcp tt)
              (if-IsServed (text_eq method (codes "eth.set_static")) _ _
                (set_static-IsServed params)
                (if-IsServed (text_eq method (codes "wifi.scan.start")) _ _
                  (plain-IsServed wifi_scan_status_payload scan_started d.wifi_scan_start tt)
                  (if-IsServed (text_eq method (codes "wifi.scan.status")) _ _
                    (plain-IsServed wifi_scan_status_payload scan_asked d.wifi_scan_status tt)
                    (if-IsServed (text_eq method (codes "wifi.set_enabled")) _ _
                      (set_enabled-IsServed params)
                      (if-IsServed (text_eq method (codes "wifi.connect")) _ _
                        (connect-IsServed params)
                        (if-IsServed (text_eq method (codes "wifi.connect_saved")) _ _
                          (by_ssid-IsServed connected_saved d.wifi_connect_saved
                            (codes "wifi.connect_saved requires non-empty string ssid") params
                            (λ s h. h))
                          (if-IsServed (text_eq method (codes "wifi.saved_list")) _ _
                            (plain-IsServed wifi_saved_payload listed d.wifi_list_saved tt)
                            (if-IsServed (text_eq method (codes "wifi.forget")) _ _
                              (by_ssid-IsServed forgot d.wifi_forget
                                (codes "wifi.forget requires non-empty string ssid") params
                                (λ s h. h))
                              (if-IsServed (text_eq method (codes "wifi.autoconnect")) _ _
                                (autoconnect-IsServed params)
                                (if-IsServed (text_eq method (codes "wifi.disconnect")) _ _
                                  (plain-IsServed wifi_command_payload disconnected
                                    d.wifi_disconnect tt)
                                  unknown)))))))))))))
