-- ===== src/Endpoint/Forms.antt =====
-- The written forms of an endpoint that the session's parser reads.
use o_walkie.Base.{
  ℕ, ℤ, pos, ◌+◌, ◌^◌, ◌<◌, ◌≡◌, refl, Bool, true, false, not, ◌&&◌, List, [], ◌∷◌, ◌++◌, Option,
  none, some, All, All-append, All-map, ◌==◌, arith,
}
use o_walkie.Endpoint.Number.{stoi, stoi-decimal, decimal, IsDigits}
use o_walkie.Endpoint.{
  codes, ParsedHost, strip_scheme, split_first, occurrences, cut_path, bracketed, plain, located,
  parse_host_endpoint, lower, bracket_port,
}

-- A byte that no part of the parser looks for.
abbrev pub is_name_byte : ℕ → Bool
is_name_byte c = not (c == b':') && not (c == b'/') && not (c == b'[') && not (c == b']')

abbrev pub IsName : List ℕ → Type 0
IsName = All (λ c. is_name_byte c ≡ true)

-- A host name and a port, written host:port, with digits that fit an int.
pub record IsHostPort (host : List ℕ) (d : ℕ) (digits : List ℕ) : Type 0 where
  pub name : IsName host
  pub number : IsDigits (d ∷ digits)
  pub small : decimal (d ∷ digits) < 2 ^ 31

pub split_first-append :
    (b : ℕ) (l r : List ℕ)
    → All (λ c. (c == b) ≡ false) l
    → split_first b (l ++ b ∷ r) ≡ some (l, r)
unfolding split_first
split_first-append b [] r h = ground arith
split_first-append b (c ∷ l) r h = ground (arith, split_first-append b l r h.1)

split_first-none : (b : ℕ) (s : List ℕ) → All (λ c. (c == b) ≡ false) s → split_first b s ≡ none
unfolding split_first
split_first-none b [] h = refl
split_first-none b (c ∷ s) h = ground (arith, split_first-none b s h.1)

occurrences_none : (b : ℕ) (s : List ℕ) → All (λ c. (c == b) ≡ false) s → occurrences b s ≡ 0
occurrences_none b [] h = refl
occurrences_none b (c ∷ s) h = ground (arith, occurrences_none b s h.1)

abbrev pub Avoids : ℕ → List ℕ → Type 0
Avoids b = All (λ c. (c == b) ≡ false)

pub name-Avoids_slash : (s : List ℕ) → IsName s → Avoids b'/' s
name-Avoids_slash = All-map _ _ (λ c h. ground arith)

pub name-Avoids_colon : (s : List ℕ) → IsName s → Avoids b':' s
name-Avoids_colon = All-map _ _ (λ c h. ground arith)

digits-Avoids_slash : (s : List ℕ) → IsDigits s → Avoids b'/' s
digits-Avoids_slash = All-map _ _ (λ c h. ground arith)

digits-Avoids_colon : (s : List ℕ) → IsDigits s → Avoids b':' s
digits-Avoids_colon = All-map _ _ (λ c h. ground arith)

occurrences-append :
    (b : ℕ) (l r : List ℕ) → occurrences b (l ++ r) ≡ occurrences b l + occurrences b r
occurrences-append b [] r = omega arith
occurrences-append b (c ∷ l) r = ground (arith, occurrences-append b l r)

pub occurrences_once :
    (b : ℕ) (l r : List ℕ) → Avoids b l → Avoids b r → occurrences b (l ++ b ∷ r) ≡ 1
occurrences_once b l r hl hr =
    ground (arith, occurrences-append b l (b ∷ r), occurrences_none b l hl, occurrences_none b r hr)

module _ (host : List ℕ) (d : ℕ) (digits : List ℕ) where
  abbrev pub host_port : List ℕ
  host_port = host ++ b':' ∷ d ∷ digits

  host_port-Avoids_slash : IsName host → IsDigits (d ∷ digits) → Avoids b'/' host_port
  host_port-Avoids_slash hn hd =
      All-append _ host _ (name-Avoids_slash host hn) (refl, digits-Avoids_slash (d ∷ digits) hd)

  plain-host_port :
      (fallback : ℤ) (tls : Bool)
      → IsHostPort host d digits
      → plain host_port fallback tls
        ≡ record { host = host; port = pos (decimal (d ∷ digits)); use_tls = tls }
  unfolding plain
  plain-host_port fallback tls v = ground (
    arith,
    occurrences_once b':' host (d ∷ digits) (name-Avoids_colon host v.name)
        (digits-Avoids_colon (d ∷ digits) v.number),
    split_first-append b':' host (d ∷ digits) (name-Avoids_colon host v.name),
    stoi-decimal d digits v.number v.small,
  )

pub cut_path_none : (v : List ℕ) → Avoids b'/' v → cut_path v ≡ v
unfolding cut_path
cut_path_none v h = rw (split_first-none b'/' v h, cut_path) refl

-- The schemes that the parser knows.
pub data Scheme : Type 0 where
  ws wss http https : Scheme

abbrev pub prefix : Scheme → List ℕ
prefix ws = codes "ws://"
prefix wss = codes "wss://"
prefix http = codes "http://"
prefix https = codes "https://"

abbrev pub is_secure : Scheme → Bool
is_secure ws = false
is_secure wss = true
is_secure http = false
is_secure https = true

pub strip_scheme-prefix :
    (s : Scheme) (v : List ℕ) → strip_scheme (prefix s ++ v) ≡ (is_secure s, v)
unfolding strip_scheme lower
strip_scheme-prefix ws v = refl
strip_scheme-prefix wss v = refl
strip_scheme-prefix http v = refl
strip_scheme-prefix https v = refl

cut_path-append : (v path : List ℕ) → Avoids b'/' v → cut_path (v ++ b'/' ∷ path) ≡ v
unfolding cut_path
cut_path-append v path h = rw (split_first-append b'/' v path h, cut_path) refl

-- A URL with one of the four schemes, a host name and a decimal port that fits an int, with any
-- path behind it, is read as that host and that port, and TLS is asked for by wss and https. The
-- fallback port is not used.
pub parse_host_endpoint-url :
    (s : Scheme) (c : ℕ) (name : List ℕ) (d : ℕ) (digits path : List ℕ) (fallback : ℤ)
    → IsHostPort (c ∷ name) d digits
    → parse_host_endpoint (prefix s ++ (host_port (c ∷ name) d digits ++ b'/' ∷ path)) fallback
      ≡ some (record { host = c ∷ name; port = pos (decimal (d ∷ digits)); use_tls = is_secure s })
unfolding parse_host_endpoint located
parse_host_endpoint-url s c name d digits path fallback v = ground (
  arith,
  strip_scheme-prefix s (host_port (c ∷ name) d digits ++ b'/' ∷ path),
  cut_path-append (host_port (c ∷ name) d digits) path
      (host_port-Avoids_slash (c ∷ name) d digits v.name v.number),
  plain-host_port (c ∷ name) d digits fallback (is_secure s) v,
)

-- The port of the bracketed form, or the exception of std::stoi.
abbrev pub bracket_result : Option ℤ → List ℕ → Bool → Option ParsedHost
bracket_result none host tls = none
bracket_result (some port) host tls = some (record { host = host; port = port; use_tls = tls })

-- A URL with one of the four schemes, a bracketed host and a colon behind it, with no slash in the
-- rest and no closing bracket in the host, is read as that host and the number behind the colon
-- where std::stoi reads one. Where it does not, its exception leaves the parser.
pub parse_host_endpoint-bracket :
    (s : Scheme) (host number : List ℕ) (fallback : ℤ)
    → Avoids b']' host
    → Avoids b'/' host
    → Avoids b'/' number
    → parse_host_endpoint (prefix s ++ b'[' ∷ (host ++ b']' ∷ b':' ∷ number)) fallback
      ≡ bracket_result (stoi number) host (is_secure s)
unfolding parse_host_endpoint located bracketed bracket_port
parse_host_endpoint-bracket s host number fallback hb hs hn = ground (
  arith,
  strip_scheme-prefix s (b'[' ∷ (host ++ b']' ∷ b':' ∷ number)),
  cut_path_none (b'[' ∷ (host ++ b']' ∷ b':' ∷ number))
      (refl, All-append _ host _ hs (refl, (refl, hn))),
  split_first-append b']' host (b':' ∷ number) hb,
)
