-- ===== src/Endpoint.antt =====
-- The host field of the connection parameters: parseHostEndpoint of owalkie-core/src/session.cpp,
-- and that of owalkie-core/src/activity_probe.cpp, which starts with the same text.
pub mod Number
pub mod Forms
pub mod Agreement
mod Examples
use Prim.Native.Char.{code}
use Prim.Native.String.{String}
use o_walkie.Base.{
  ℕ, ℤ, ◌+◌, ◌-◌, Bool, true, false, ◌&&◌, List, [], ◌∷◌, ◌++◌, map, Option, none, some, drop, leb,
  ◌==◌, if◌then◌else◌, suc,
}
use Number.{stoi}

-- The bytes of an ASCII literal.
abbrev pub codes : String → List ℕ
codes String.[] = []
codes (String.◌∷◌ c s) = code c ∷ codes s

-- struct ParsedHost
pub record ParsedHost : Type 0 where
  pub host : List ℕ
  pub port : ℤ
  pub use_tls : Bool

-- ::tolower of the C locale
unfoldable pub lower : ℕ → ℕ
lower c = if leb b'A' c && leb c b'Z' then c + 32 else c

-- lowered.rfind(p, 0) == 0
abbrev pub starts_with : List ℕ → List ℕ → Bool
starts_with [] s = true
starts_with (p ∷ ps) [] = false
starts_with (p ∷ ps) (c ∷ s) = p == c && starts_with ps s

-- The scheme, in any case, is dropped; wss and https ask for TLS.
unfoldable pub strip_scheme : List ℕ → Bool × List ℕ
strip_scheme raw =
    let lowered = map lower raw in
    if starts_with (codes "wss://") lowered
    then (true, drop 6 raw)
    else if starts_with (codes "ws://") lowered
    then (false, drop 5 raw)
    else if starts_with (codes "https://") lowered
    then (true, drop 8 raw)
    else if starts_with (codes "http://") lowered
    then (false, drop 7 raw)
    else (false, raw)

-- What stands before the first occurrence of a byte, and after it: s.find(b) with two s.substr.
abbrev pub cons_before : ℕ → Option (List ℕ × List ℕ) → Option (List ℕ × List ℕ)
cons_before c none = none
cons_before c (some (l, r)) = some (c ∷ l, r)

unfoldable pub split_first : ℕ → List ℕ → Option (List ℕ × List ℕ)
split_first b [] = none
split_first b (c ∷ s) = if c == b then some ([], s) else cons_before c (split_first b s)

-- value = value.substr(0, slash)
unfoldable pub cut_path : List ℕ → List ℕ
cut_path value = elim (split_first b'/' value) [ none ↦ value | some (l, r) ↦ l ]

-- std::count(value.begin(), value.end(), b)
abbrev pub occurrences : ℕ → List ℕ → ℕ
occurrences b [] = 0
occurrences b (c ∷ s) = if c == b then suc (occurrences b s) else occurrences b s

-- The port behind "]:", where std::stoi may throw out of the function.
bracket_port : List ℕ → ℤ → Option ℤ
bracket_port [] fallback = some fallback
bracket_port (c ∷ rest) fallback = if c == b':' then stoi rest else some fallback

-- A value that begins with '[', of which the argument is the rest.
pub bracketed : List ℕ → ℤ → Bool → Option ParsedHost
bracketed inner fallback tls = elim (split_first b']' inner) [
  | none ↦ some (record { host = b'[' ∷ inner; port = fallback; use_tls = tls })
  | some (host, rest) ↦ elim (bracket_port rest fallback) [
    | none ↦ none
    | some port ↦ some (record { host = host; port = port; use_tls = tls })
  ]
]

-- host:port, and the whole value as the host where std::stoi throws
pub plain : List ℕ → ℤ → Bool → ParsedHost
plain value fallback tls =
    let whole : ParsedHost = record { host = value; port = fallback; use_tls = tls } in
    if occurrences b':' value == 1
    then (elim (split_first b':' value) [
      | none ↦ whole
      | some (host, number) ↦ elim (stoi number) [
        | none ↦ whole
        | some port ↦ record { host = host; port = port; use_tls = tls }
      ]
    ])
    else whole

unfoldable pub located : List ℕ → ℤ → Bool → Option ParsedHost
located [] fallback tls = some (record { host = []; port = fallback; use_tls = tls })
located (c ∷ s) fallback tls =
    if c == b'[' then bracketed s fallback tls else some (plain (c ∷ s) fallback tls)

-- ParsedHost parseHostEndpoint(const std::string& rawHost, int fallbackPort); none is an exception
unfoldable pub parse_host_endpoint : List ℕ → ℤ → Option ParsedHost
unfolding located
parse_host_endpoint raw fallback =
    let (tls, value) = strip_scheme raw in located (cut_path value) fallback tls

-- The probe's struct ParsedHost, and its parseHostEndpoint(const std::string& rawHost)
pub record ProbeHost : Type 0 where
  pub host : List ℕ
  pub use_tls : Bool

unfoldable pub probe_located : List ℕ → List ℕ
probe_located [] = []
probe_located (c ∷ s) =
    if c == b'['
    then elim (split_first b']' s) [ none ↦ [] | some (host, rest) ↦ host ]
    else if occurrences b':' (c ∷ s) == 1
    then (elim (split_first b':' (c ∷ s)) [ none ↦ c ∷ s | some (host, number) ↦ host ])
    else c ∷ s

unfoldable pub probe_host_endpoint : List ℕ → ProbeHost
unfolding probe_located
probe_host_endpoint raw =
    let (tls, value) = strip_scheme raw in
    record { host = probe_located (cut_path value); use_tls = tls }
