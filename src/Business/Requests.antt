-- ===== src/Business/Requests.antt =====
-- The requests of a client that writes its parameters as the service writes texts reach the daemon
-- with those very texts.
use network_service.Prelude.{
  ℕ, ◌≡◌, refl, ap, ◌∙◌, false, [], ◌∷◌, some, arith, Bytes, codes, text_eq, is_empty, All, Option,
}
use network_service.Representation.{
  quoted, json_object, ethernet_config_payload, wifi_command_payload,
}
use network_service.BusinessReader.{read_string}
use network_service.BusinessReader.Members.{
  IsMember, values_of, quoted-IsValue, read_string-json_object,
}
use network_service.Business.{
  NetworkDaemon, operation_response, reject, with_param, nonempty, set_static, connect,
  dispatch_business_request,
}

abbrev pub static_params : Bytes → Bytes → Bytes → Bytes → Bytes
static_params ip mask gateway dns = json_object (
    (codes "ip", quoted ip)
    ∷ (codes "mask", quoted mask)
    ∷ (codes "gateway", quoted gateway)
    ∷ (codes "dns", quoted dns)
    ∷ [])

abbrev pub connect_params : Bytes → Bytes → Bytes
connect_params ssid password =
    json_object ((codes "ssid", quoted ssid) ∷ (codes "password", quoted password) ∷ [])

static_params-IsMember :
    (ip mask gateway dns : Bytes)
    → All IsMember (
        (codes "ip", quoted ip)
        ∷ (codes "mask", quoted mask)
        ∷ (codes "gateway", quoted gateway)
        ∷ (codes "dns", quoted dns)
        ∷ [])
static_params-IsMember ip mask gateway dns = (
  (omega arith, quoted-IsValue ip),
  (
    (omega arith, quoted-IsValue mask),
    ((omega arith, quoted-IsValue gateway), ((omega arith, quoted-IsValue dns), tt)),
  ),
)

connect_params-IsMember :
    (ssid password : Bytes)
    → All IsMember ((codes "ssid", quoted ssid) ∷ (codes "password", quoted password) ∷ [])
connect_params-IsMember ssid password =
    ((omega arith, quoted-IsValue ssid), ((omega arith, quoted-IsValue password), tt))

module _ (ip mask gateway dns : Bytes) where
  read_static :
      (wanted s : Bytes)
      → values_of wanted (
          (codes "ip", quoted ip)
          ∷ (codes "mask", quoted mask)
          ∷ (codes "gateway", quoted gateway)
          ∷ (codes "dns", quoted dns)
          ∷ [])
        ≡ quoted s ∷ []
      → read_string (static_params ip mask gateway dns) wanted ≡ some s
  read_static wanted s e =
      read_string-json_object wanted s (codes "ip", quoted ip)
        ((codes "mask", quoted mask)
          ∷ (codes "gateway", quoted gateway)
          ∷ (codes "dns", quoted dns)
          ∷ [])
        (static_params-IsMember ip mask gateway dns) e

read_connect :
    (ssid password wanted s : Bytes)
    → values_of wanted ((codes "ssid", quoted ssid) ∷ (codes "password", quoted password) ∷ [])
      ≡ quoted s ∷ []
    → read_string (connect_params ssid password) wanted ≡ some s
read_connect ssid password wanted s e =
    read_string-json_object wanted s (codes "ssid", quoted ssid)
      ((codes "password", quoted password) ∷ []) (connect_params-IsMember ssid password) e

module _ {W : Type 0} (d : NetworkDaemon W) where
  -- A request for a static address whose four texts are written as JSON strings calls
  -- `eth_set_static` with exactly these four texts, whatever their bytes are, so also where they are
  -- not UTF-8, and is answered with its result.
  pub dispatch-static :
      (id : ℕ) (ip mask gateway dns : Bytes) (w : W)
      → dispatch_business_request d id
          (codes "eth.set_static")
          (static_params ip mask gateway dns)
          w
        ≡ operation_response id ethernet_config_payload (d.eth_set_static ip mask gateway dns w)
  unfolding dispatch_business_request set_static text_eq
  dispatch-static id ip mask gateway dns w =
      let params = static_params ip mask gateway dns in
      let refused = reject id (codes "eth.set_static requires string ip/mask/gateway/dns") w in
      let answer = λ (i m g n : Bytes).
        operation_response id ethernet_config_payload (d.eth_set_static i m g n w) in
      ap
        (λ (o : Option Bytes). with_param o refused (λ i.
          with_param (read_string params (codes "mask")) refused (λ m.
            with_param (read_string params (codes "gateway")) refused
              (λ g. with_param (read_string params (codes "dns")) refused (answer i m g)))))
        (read_static ip mask gateway dns (codes "ip") ip refl)
      ∙ ap
          (λ (o : Option Bytes). with_param o refused (λ m.
            with_param (read_string params (codes "gateway")) refused
              (λ g. with_param (read_string params (codes "dns")) refused (answer ip m g))))
          (read_static ip mask gateway dns (codes "mask") mask refl)
      ∙ ap
          (λ (o : Option Bytes).
            with_param o refused
              (λ g. with_param (read_string params (codes "dns")) refused (answer ip mask g)))
          (read_static ip mask gateway dns (codes "gateway") gateway refl)
      ∙ ap (λ (o : Option Bytes). with_param o refused (answer ip mask gateway))
          (read_static ip mask gateway dns (codes "dns") dns refl)

  nonempty-some : (s : Bytes) → is_empty s ≡ false → nonempty (some s) ≡ some s
  nonempty-some s h = ground arith

  -- A request to connect whose network name is not empty calls `wifi_connect` with exactly the name
  -- and the password of the client, whatever their bytes are, and is answered with its result.
  pub dispatch-connect :
      (id : ℕ) (ssid password : Bytes) (w : W)
      → is_empty ssid ≡ false
      → dispatch_business_request d id (codes "wifi.connect") (connect_params ssid password) w
        ≡ operation_response id wifi_command_payload (d.wifi_connect ssid password w)
  unfolding dispatch_business_request connect text_eq
  dispatch-connect id ssid password w h =
      let params = connect_params ssid password in
      let refused =
        reject id (codes "wifi.connect requires non-empty string ssid and string password") w in
      let answer =
        λ (s p : Bytes). operation_response id wifi_command_payload (d.wifi_connect s p w) in
      ap
        (λ (o : Option Bytes).
          with_param (nonempty o) refused
            (λ s. with_param (read_string params (codes "password")) refused (answer s)))
        (read_connect ssid password (codes "ssid") ssid refl)
      ∙ ap
          (λ (o : Option Bytes).
            with_param o refused
              (λ s. with_param (read_string params (codes "password")) refused (answer s)))
          (nonempty-some ssid h)
      ∙ ap (λ (o : Option Bytes). with_param o refused (answer ssid))
          (read_connect ssid password (codes "password") password refl)
