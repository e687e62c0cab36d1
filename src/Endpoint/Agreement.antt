-- ===== src/Endpoint/Agreement.antt =====
-- The session's parser of the host field against the activity probe's.
use o_walkie.Base.{
  All-append, ℕ, ℤ, ◌≡◌, ◌≢◌, refl, Bool, List, [], ◌∷◌, ◌++◌, Option, none, some, ◌==◌,
  if◌then◌else◌, arith,
}
use o_walkie.Endpoint.Forms.{
  Scheme, prefix, is_secure, IsName, Avoids, split_first-append, occurrences_once,
  name-Avoids_slash, name-Avoids_colon, strip_scheme-prefix, cut_path_none,
}
use o_walkie.Endpoint.Number.{stoi}
use o_walkie.Endpoint.{
  ParsedHost, strip_scheme, split_first, occurrences, cut_path, bracketed, plain, located,
  probe_located, parse_host_endpoint, probe_host_endpoint,
}

-- The values that the two read alike: a bracket is closed, and a single colon has a number behind.
abbrev Closes : Option (List ℕ × List ℕ) → Type 0
Closes none = ⊥
Closes (some (l, r)) = Unit {0}

abbrev Counts : Option (List ℕ × List ℕ) → Type 0
Counts none = Unit {0}
Counts (some (l, r)) = stoi r ≢ none

abbrev pub IsRegular : List ℕ → Type 0
IsRegular [] = Unit {0}
IsRegular (c ∷ s) =
    if c == b'['
    then Closes (split_first b']' s)
    else if occurrences b':' (c ∷ s) == 1
    then Counts (split_first b':' (c ∷ s))
    else Unit {0}

located-probe :
    (v : List ℕ) (fallback : ℤ) (tls : Bool) (p : ParsedHost)
    → IsRegular v
    → located v fallback tls ≡ some p
    → (p.host ≡ probe_located v) × (p.use_tls ≡ tls)
unfolding located probe_located bracketed plain
located-probe [] fallback tls p h e = ground arith
located-probe (c ∷ s) fallback tls p h e = ground arith

-- Where the session's parser returns, and the host field holds no unclosed bracket and no single
-- colon without a number behind it, the probe asks the same host and takes the same view of TLS.
pub parse_host_endpoint-probe :
    (raw : List ℕ) (fallback : ℤ) (p : ParsedHost)
    → IsRegular (cut_path (strip_scheme raw).1)
    → parse_host_endpoint raw fallback ≡ some p
    → (p.host ≡ (probe_host_endpoint raw).host) × (p.use_tls ≡ (probe_host_endpoint raw).use_tls)
unfolding parse_host_endpoint probe_host_endpoint
parse_host_endpoint-probe raw fallback p h e =
    located-probe (cut_path (strip_scheme raw).1) fallback (strip_scheme raw).0 p h e

-- Where a URL with one of the four schemes has a host name, a single colon behind it, and behind
-- that a text with neither a slash nor a colon in which std::stoi reads no number, the two
-- disagree: the session looks for a host with the colon in its name, and the probe for the name
-- alone.
pub parse_host_endpoint-probe_differ :
    (s : Scheme) (c : ℕ) (name number : List ℕ) (fallback : ℤ)
    → IsName (c ∷ name)
    → Avoids b'/' number
    → Avoids b':' number
    → stoi number ≡ none
    → let raw = prefix s ++ (c ∷ name ++ b':' ∷ number) in
      (parse_host_endpoint raw fallback
        ≡ some
            (record { host = c ∷ name ++ b':' ∷ number; port = fallback; use_tls = is_secure s }))
      × ((probe_host_endpoint raw).host ≡ c ∷ name)
unfolding parse_host_endpoint probe_host_endpoint located plain probe_located
parse_host_endpoint-probe_differ s c name number fallback hn hs hc e =
    let whole = c ∷ name ++ b':' ∷ number in
    let scheme = strip_scheme-prefix s whole in
    let path =
      cut_path_none whole
        (All-append _ (c ∷ name) _ (name-Avoids_slash (c ∷ name) hn) (refl, hs)) in
    let once = occurrences_once b':' (c ∷ name) number (name-Avoids_colon (c ∷ name) hn) hc in
    let split = split_first-append b':' (c ∷ name) number (name-Avoids_colon (c ∷ name) hn) in
    (ground (arith, scheme, path, once, split), ground (arith, scheme, path, once, split))
