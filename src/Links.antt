-- ===== src/Links.antt =====
-- The texts of connection links: UrlDecode, UrlEncode, Base64UrlEncode and Base64UrlDecode of
-- windows-client-cpp/src/MainFrame.cpp, with the links themselves in Links.Connect.
-- A text is a list of bytes, a byte a number below 256.
pub mod UrlForms
pub mod Base64
pub mod Connect
mod Examples
use Prim.Native.Nat.{ℕ, ◌+◌, ◌-◌, ◌*◌, ◌/◌, ◌%◌, ◌^◌}
use o_walkie.Base.{
  Bool, ◌&&◌, ◌||◌, List, [], ◌∷◌, ◌++◌, map, length, replicate, Option, none, some, leb, ◌==◌,
  if◌then◌else◌,
}
use o_walkie.Endpoint.{codes}
use o_walkie.Wire.{byte_at}

-- int HexValue(char c), with none for -1
unfoldable pub hex_value : ℕ → Option ℕ
hex_value c =
    if leb b'0' c && leb c b'9'
    then some (c - b'0')
    else if leb b'a' c && leb c b'f'
    then some (10 + (c - b'a'))
    else if leb b'A' c && leb c b'F'
    then some (10 + (c - b'A'))
    else none

-- (hi << 4) | lo, if both are digits
abbrev pub hex_pair : Option ℕ → Option ℕ → Option ℕ
hex_pair (some hi) (some lo) = some (hi * 16 + lo)
hex_pair _ _ = none

abbrev pub escaped : ℕ → ℕ → ℕ → Option ℕ
escaped c d e = if c == b'%' then hex_pair (hex_value d) (hex_value e) else none

abbrev pub unescaped : ℕ → ℕ
unescaped c = if c == b'+' then b' ' else c

-- std::string UrlDecode(const std::string& src)
unfoldable pub url_decode : List ℕ → List ℕ
url_decode [] = []
url_decode (c ∷ []) = unescaped c ∷ []
url_decode (c ∷ d ∷ []) = unescaped c ∷ unescaped d ∷ []
url_decode (c ∷ d ∷ e ∷ s) = elim (escaped c d e) [
  | none ↦ unescaped c ∷ url_decode (d ∷ e ∷ s)
  | some b ↦ b ∷ url_decode s
]

unfoldable pub is_unreserved : ℕ → Bool
is_unreserved c =
    leb b'A' c && leb c b'Z'
    || leb b'a' c && leb c b'z'
    || leb b'0' c && leb c b'9'
    || c == b'-'
    || c == b'_'
    || c == b'.'
    || c == b'~'

-- kHex[d]
unfoldable pub hex_digit : ℕ → ℕ
hex_digit d = byte_at (codes "0123456789ABCDEF") d

-- std::string UrlEncode(const std::string& src)
unfoldable pub url_encode : List ℕ → List ℕ
url_encode [] = []
url_encode (c ∷ s) =
    if is_unreserved c
    then c ∷ url_encode s
    else b'%' ∷ hex_digit (c / 16 % 16) ∷ hex_digit (c % 16) ∷ url_encode s

abbrev pub alphabet : List ℕ
alphabet = codes "ABCDEFGHIJKLMNOPQRSTUVWXYZabcdefghijklmnopqrstuvwxyz0123456789+/"

-- kTable[n]
unfoldable pub symbol : ℕ → ℕ
symbol n = byte_at alphabet n

-- Four symbols for three bytes, with '=' in the places of a last group that bytes are missing for.
unfoldable pub base64_groups : List ℕ → List ℕ
base64_groups [] = []
base64_groups (a ∷ []) =
    let n = a * 2 ^ 16 in symbol (n / 2 ^ 18 % 64) ∷ symbol (n / 2 ^ 12 % 64) ∷ b'=' ∷ b'=' ∷ []
base64_groups (a ∷ b ∷ []) =
    let n = a * 2 ^ 16 + b * 2 ^ 8 in
    symbol (n / 2 ^ 18 % 64) ∷ symbol (n / 2 ^ 12 % 64) ∷ symbol (n / 2 ^ 6 % 64) ∷ b'=' ∷ []
base64_groups (a ∷ b ∷ c ∷ bytes) =
    let n = a * 2 ^ 16 + b * 2 ^ 8 + c in
    symbol (n / 2 ^ 18 % 64)
    ∷ symbol (n / 2 ^ 12 % 64)
    ∷ symbol (n / 2 ^ 6 % 64)
    ∷ symbol (n % 64)
    ∷ base64_groups bytes

abbrev pub to_url : ℕ → ℕ
to_url c = if c == b'+' then b'-' else if c == b'/' then b'_' else c

abbrev pub kept_back : (ℕ → Bool) → ℕ → List ℕ → List ℕ
kept_back test c [] = if test c then [] else c ∷ []
kept_back test c (d ∷ s) = c ∷ d ∷ s

-- while (!s.empty() && test(s.back())) s.pop_back();
pub pop_back_while : (ℕ → Bool) → List ℕ → List ℕ
pop_back_while test [] = []
pop_back_while test (c ∷ s) = kept_back test c (pop_back_while test s)

-- std::string Base64UrlEncode(const std::string& bytes)
unfoldable pub base64_url_encode : List ℕ → List ℕ
base64_url_encode bytes = pop_back_while (λ c. c == b'=') (map to_url (base64_groups bytes))

abbrev pub from_url : ℕ → ℕ
from_url c = if c == b'-' then b'+' else if c == b'_' then b'/' else c

-- while (s.size() % 4 != 0) s.push_back('=');
abbrev pub padded : List ℕ → List ℕ
padded s = s ++ replicate ((4 - length s % 4) % 4) b'='

abbrev pub index_from : ℕ → List ℕ → ℕ → Option ℕ
index_from n [] c = none
index_from n (x ∷ xs) c = if x == c then some n else index_from (n + 1) xs c

-- map[c], with none for -1
unfoldable pub symbol_value : ℕ → Option ℕ
symbol_value c = index_from 0 alphabet c

abbrev pub value_or_pad : ℕ → Option ℕ
value_or_pad c = if c == b'=' then some 0 else symbol_value c

abbrev pub group_bytes : ℕ → ℕ → Option ℕ → Option ℕ → Option ℕ → Option ℕ → Option (List ℕ)
group_bytes c2 c3 (some v0) (some v1) (some v2) (some v3) =
    let n = v0 * 2 ^ 18 + v1 * 2 ^ 12 + v2 * 2 ^ 6 + v3 in
    let last = if c3 == b'=' then [] else n % 256 ∷ [] in
    some (n / 2 ^ 16 % 256 ∷ (if c2 == b'=' then last else n / 2 ^ 8 % 256 ∷ last))
group_bytes c2 c3 _ _ _ _ = none

abbrev pub appended : Option (List ℕ) → Option (List ℕ) → Option (List ℕ)
appended (some xs) (some ys) = some (xs ++ ys)
appended _ _ = none

-- The loop over groups of four symbols; none is the result false
unfoldable pub decode_groups : List ℕ → Option (List ℕ)
decode_groups [] = some []
decode_groups (c0 ∷ c1 ∷ c2 ∷ c3 ∷ s) =
    appended
      (group_bytes c2 c3 (symbol_value c0) (symbol_value c1) (value_or_pad c2) (value_or_pad c3))
      (decode_groups s)
decode_groups _ = none

-- bool Base64UrlDecode(const std::string& input, std::string& out)
unfoldable pub base64_url_decode : List ℕ → Option (List ℕ)
base64_url_decode input = decode_groups (padded (map from_url input))
