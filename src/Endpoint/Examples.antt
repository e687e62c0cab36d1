-- ===== src/Endpoint/Examples.antt =====
-- Host fields at concrete values.
use o_walkie.Base.{ℕ, pos, ◌≡◌, refl, true, false, List, [], ◌∷◌, ◌++◌, none, some, arith}
use o_walkie.Endpoint.{
  lower, cut_path, strip_scheme, split_first, codes, ParsedHost, parse_host_endpoint,
  probe_host_endpoint,
}
use o_walkie.Endpoint.Number.{stoi, stoi-none, stoi-decimal}
use o_walkie.Endpoint.Forms.{
  wss, http, ws, prefix, bracket_result, parse_host_endpoint-url, parse_host_endpoint-bracket,
}
use o_walkie.Endpoint.Agreement.{
  IsRegular, parse_host_endpoint-probe, parse_host_endpoint-probe_differ,
}

abbrev a_url : List ℕ
a_url = codes "wss://relay:9000/ws"

port_9000 : stoi (codes "9000") ≡ some (pos 9000)
port_9000 = stoi-decimal b'9' (codes "000") (ground arith) (omega arith)

url_parsed :
    parse_host_endpoint a_url (pos 1)
    ≡ some (record { host = codes "relay"; port = pos 9000; use_tls = true })
url_parsed =
    parse_host_endpoint-url wss b'r' (codes "elay") b'9' (codes "000") (codes "ws") (pos 1)
      (record { name = ground arith; number = ground arith; small = omega arith })

parse_host_endpoint-bracket_example :
    parse_host_endpoint (prefix ws ++ b'[' ∷ (codes "::1" ++ b']' ∷ b':' ∷ codes "x")) (pos 1)
    ≡ bracket_result (stoi (codes "x")) (codes "::1") false
parse_host_endpoint-bracket_example =
    parse_host_endpoint-bracket ws (codes "::1") (codes "x") (pos 1) (ground arith) (ground arith)
      (ground arith)

uncaught : stoi (codes "x") ≡ none
uncaught = stoi-none b'x' [] refl refl (omega arith) (omega arith)

abbrev relay : ParsedHost
relay = record { host = codes "relay"; port = pos 9000; use_tls = true }

a_url-IsRegular : IsRegular (cut_path (strip_scheme a_url).1)
unfolding cut_path strip_scheme split_first lower
a_url-IsRegular = λ e. cc port_9000

parse_host_endpoint-probe_example :
    (codes "relay" ≡ (probe_host_endpoint a_url).host)
    × (true ≡ (probe_host_endpoint a_url).use_tls)
parse_host_endpoint-probe_example =
    parse_host_endpoint-probe a_url (pos 1) relay a_url-IsRegular url_parsed

parse_host_endpoint-probe_differ_example :
    let raw = prefix http ++ (codes "ab" ++ b':' ∷ codes "x") in
    (parse_host_endpoint raw (pos 1)
      ≡ some (record { host = codes "ab:x"; port = pos 1; use_tls = false }))
    × ((probe_host_endpoint raw).host ≡ codes "ab")
parse_host_endpoint-probe_differ_example =
    parse_host_endpoint-probe_differ http b'a' (codes "b") (codes "x") (pos 1) (ground arith)
      (ground arith) (ground arith) uncaught
