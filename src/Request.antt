-- ===== src/Request.antt =====
-- `parse_request` of src/ipc/network_ipc_v1_session.cpp: the members of a REQUEST, with the reason
-- of a refusal. What has been read is kept also when the request is refused.
pub mod Parsing
pub mod Accepted
use network_service.Prelude.{
  ℕ, zero, suc, ◌-◌, Bool, true, false, not, ◌||◌, List, [], ◌∷◌, Option, none, some, ◌==◌,
  if◌then◌else◌, length, is_empty, take, Bytes, codes, text_eq,
}
use network_service.Json.{skip_ws, expect, starts_with, parse_string, parse_uint64, skip_value}

pub record ParsedRequest : Type 0 where
  pub request_id : ℕ
  pub method : Bytes
  pub params_json : Bytes
  pub have_request_id : Bool
  pub have_method : Bool
  pub have_params : Bool

abbrev pub no_request : ParsedRequest
no_request = record {
  request_id = 0;
  method = [];
  params_json = codes "{}";
  have_request_id = false;
  have_method = false;
  have_params = false;
}

pub data RequestParseError : Type 0 where
  no_error invalid_json duplicate_request_id duplicate_method duplicate_params : RequestParseError
  invalid_request_id invalid_method invalid_params missing_request_id : RequestParseError
  missing_method : RequestParseError

-- How the reading of a member or of the object goes: refused, or on with the text behind it.
pub data Reading : Type 0 where
  refused : RequestParseError → Reading
  behind : Bytes → Reading

abbrev pub looks_fractional : Bytes → Bool
looks_fractional t = starts_with b'.' t || starts_with b'e' t || starts_with b'E' t

unfoldable pub request_id_member : ParsedRequest → Bytes → ParsedRequest × Reading
request_id_member r t =
    if r.have_request_id then (r, refused duplicate_request_id) else elim (parse_uint64 t) [
      | none ↦ (r, refused invalid_request_id)
      | some (n, rest) ↦
          if n == 0
          then (r, refused invalid_request_id)
          else if looks_fractional rest
          then (r, refused invalid_request_id)
          else (record r { request_id = n; have_request_id = true }, behind rest)
    ]

unfoldable pub method_member : ParsedRequest → Bytes → ParsedRequest × Reading
method_member r t = if r.have_method then (r, refused duplicate_method) else elim (parse_string t) [
  | none ↦ (r, refused invalid_method)
  | some (method, rest) ↦
      if is_empty method
      then (r, refused invalid_method)
      else (record r { method = method; have_method = true }, behind rest)
]

-- `substr(begin, pos - begin)` is the text up to what is behind the value.
unfoldable pub params_member : ParsedRequest → Bytes → ParsedRequest × Reading
params_member r t =
    if r.have_params
    then (r, refused duplicate_params)
    else if not (starts_with b'{' t)
    then (r, refused invalid_params)
    else elim (skip_value t 1) [
      | none ↦ (r, refused invalid_params)
      | some rest ↦ (
        record r { params_json = take (length t - length rest) t; have_params = true },
        behind rest,
      )
    ]

unfoldable pub other_member : ParsedRequest → Bytes → ParsedRequest × Reading
other_member r t = elim (skip_value t 1) [
  | none ↦ (r, refused invalid_json)
  | some rest ↦ (r, behind rest)
]

unfoldable pub request_member : Bytes → ParsedRequest → Bytes → ParsedRequest × Reading
unfolding request_id_member method_member params_member other_member
request_member key r t =
    if text_eq key (codes "requestId")
    then request_id_member r t
    else if text_eq key (codes "method")
    then method_member r t
    else if text_eq key (codes "params")
    then params_member r t
    else other_member r t

-- One member: its key, the colon and the value.
unfoldable pub request_pair : ParsedRequest → Bytes → ParsedRequest × Reading
request_pair r t = elim (parse_string t) [
  | none ↦ (r, refused invalid_json)
  | some (key, t₁) ↦ elim (expect b':' (skip_ws t₁)) [
    | none ↦ (r, refused invalid_json)
    | some t₂ ↦ request_member key r (skip_ws t₂)
  ]
]

-- The loop over the members. Each round takes at least one character, so the length of the text is
-- fuel enough.
unfoldable pub request_loop : ℕ → ParsedRequest → Bytes → ParsedRequest × Reading
request_loop zero r t = (r, refused invalid_json)
request_loop (suc fuel) r t =
    let (r', reading) = request_pair r t in
    elim reading [
      | refused e ↦ (r', refused e)
      | behind t₁ ↦ elim (expect b'}' (skip_ws t₁)) [
        | some t₂ ↦ (r', behind t₂)
        | none ↦ elim (expect b',' (skip_ws t₁)) [
          | none ↦ (r', refused invalid_json)
          | some t₂ ↦ request_loop fuel r' (skip_ws t₂)
        ]
      ]
    ]

unfoldable pub request_end : ParsedRequest × Reading → ParsedRequest × RequestParseError
request_end (r, refused e) = (r, e)
request_end (r, behind t) =
    if not (is_empty (skip_ws t))
    then (r, invalid_json)
    else if not r.have_request_id
    then (r, missing_request_id)
    else if not r.have_method
    then (r, missing_method)
    else (r, no_error)

unfoldable pub parse_request : Bytes → ParsedRequest × RequestParseError
unfolding request_end
parse_request text = elim (expect b'{' (skip_ws text)) [
  | none ↦ (no_request, invalid_json)
  | some t ↦
      let members = request_end (request_loop (suc (length (skip_ws t))) no_request (skip_ws t)) in
      if starts_with b'}' (skip_ws t) then (no_request, missing_request_id) else members
]

unfoldable pub request_error_message : RequestParseError → Bytes
request_error_message no_error = codes "none"
request_error_message invalid_json = codes "REQUEST payload is invalid JSON"
request_error_message duplicate_request_id = codes "requestId must appear exactly once"
request_error_message duplicate_method = codes "method must appear exactly once"
request_error_message duplicate_params = codes "params must appear at most once"
request_error_message invalid_request_id = codes "requestId must be a non-zero uint64 integer"
request_error_message invalid_method = codes "method must be a non-empty string"
request_error_message invalid_params = codes "params must be a JSON object"
request_error_message missing_request_id = codes "requestId is required"
request_error_message missing_method = codes "method is required"
