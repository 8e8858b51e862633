-- ===== src/Tests/Json.antt =====
-- Pieces of JSON as a client may send them.
use network_service.Prelude.{◌≡◌, refl, ◌∷◌, ◌++◌, some, none, map, Bytes, codes, arith}
use network_service.Event.{json_escape}
use network_service.Json.{skip_value, parse_string, parse_uint64}
use network_service.Json.Grammar.{Scans, value}
use network_service.Json.Derivation.{skip_value-Scans}
use network_service.Json.Number.{parse_uint64-digits}
use network_service.Json.Text.{shown, parse_string-json_escape}

abbrev pair : Bytes
pair = codes "[1, {\"a\": null}] x"

skip_value-Scans_example : Scans value pair 1 (skip_value pair 1)
skip_value-Scans_example = skip_value-Scans pair 1

-- 2^64 is refused.
parse_uint64-digits_example : parse_uint64 (codes "18446744073709551616,") ≡ none
parse_uint64-digits_example =
    parse_uint64-digits b'1' (codes "8446744073709551616") (codes ",") (ground arith) refl

abbrev line : Bytes
line = codes "say \"hi\"\n"

parse_string-json_escape_example :
    parse_string (b'"' ∷ (json_escape line ++ codes "\",")) ≡ some (map shown line, codes ",")
parse_string-json_escape_example = parse_string-json_escape line (codes ",")
