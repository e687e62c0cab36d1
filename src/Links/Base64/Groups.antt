-- ===== src/Links/Base64/Groups.antt =====
-- Base64UrlEncode and Base64UrlDecode of MainFrame.cpp, a group of symbols at a time.
use o_walkie.Base.{
  ◌∙◌, ℕ, suc, ◌+◌, ◌-◌, ◌*◌, ◌/◌, ◌%◌, ◌^◌, ◌<◌, ◌≡◌, refl, ap, Bool, false, not, List, [], ◌∷◌,
  ◌++◌, map, length, replicate, some, ◌==◌, arith,
}
use o_walkie.Links.{
  symbol, base64_groups, to_url, from_url, kept_back, pop_back_while, base64_url_encode,
  base64_url_decode, padded, symbol_value, value_or_pad, group_bytes, appended, decode_groups,
}
use o_walkie.Links.UrlForms.{all_below→, is_some, is_some→, differs}

-- The symbols of a link: those of the table in their form for addresses.
abbrev pub link_symbol : ℕ → ℕ
link_symbol n = to_url (symbol n)

symbol_value-from_url : (n : ℕ) → n < 64 → symbol_value (from_url (link_symbol n)) ≡ some n
unfolding symbol_value symbol
symbol_value-from_url n h =
    is_some→ n (symbol_value (from_url (link_symbol n)))
      (all_below→ (λ n. is_some n (symbol_value (from_url (link_symbol n)))) 64 n refl h)

from_url-differs : (n : ℕ) → n < 64 → (from_url (link_symbol n) == b'=') ≡ false
unfolding symbol
from_url-differs n h =
    differs (λ c. not (c == b'=')) (from_url (link_symbol n)) b'='
      (all_below→ (λ n. not (from_url (link_symbol n) == b'=')) 64 n refl h) refl

link_symbol-differs : (n : ℕ) → n < 64 → (link_symbol n == b'=') ≡ false
unfolding symbol
link_symbol-differs n h =
    differs (λ c. not (c == b'=')) (link_symbol n) b'='
      (all_below→ (λ n. not (link_symbol n == b'=')) 64 n refl h) refl

kept : (test : ℕ → Bool) (c : ℕ) (s : List ℕ) → test c ≡ false → kept_back test c s ≡ c ∷ s
kept test c [] h = ground arith
kept test c (d ∷ s) h = refl

-- A byte that fails the test keeps everything in front of it.
pub pop_back_while_cons :
    (test : ℕ → Bool) (c : ℕ) (s : List ℕ)
    → test c ≡ false
    → pop_back_while test (c ∷ s) ≡ c ∷ pop_back_while test s
unfolding pop_back_while
pop_back_while_cons test c s h = kept test c (pop_back_while test s) h

abbrev is_padding : ℕ → Bool
is_padding c = c == b'='

pop_back_while_symbol :
    (n : ℕ) (s : List ℕ)
    → n < 64
    → pop_back_while is_padding (link_symbol n ∷ s) ≡ link_symbol n ∷ pop_back_while is_padding s
pop_back_while_symbol n s h =
    pop_back_while_cons is_padding (link_symbol n) s (link_symbol-differs n h)

pub base64_url_encode_group :
    (a b c : ℕ) (bytes : List ℕ)
    → (let n = a * 2 ^ 16 + b * 2 ^ 8 + c in
        base64_url_encode (a ∷ b ∷ c ∷ bytes)
        ≡ link_symbol (n / 2 ^ 18 % 64)
          ∷ link_symbol (n / 2 ^ 12 % 64)
          ∷ link_symbol (n / 2 ^ 6 % 64)
          ∷ link_symbol (n % 64)
          ∷ base64_url_encode bytes)
unfolding base64_url_encode base64_groups
base64_url_encode_group a b c bytes =
    let n = a * 2 ^ 16 + b * 2 ^ 8 + c in
    let v0 = n / 2 ^ 18 % 64 in
    let v1 = n / 2 ^ 12 % 64 in
    let v2 = n / 2 ^ 6 % 64 in
    let v3 = n % 64 in
    let s = map to_url (base64_groups bytes) in
    let s3 = link_symbol v3 ∷ s in
    let s2 = link_symbol v2 ∷ s3 in
    pop_back_while_symbol v0 (link_symbol v1 ∷ s2) (omega arith)
    ∙ ap (◌∷◌ (link_symbol v0)) (
        pop_back_while_symbol v1 s2 (omega arith)
        ∙ ap (◌∷◌ (link_symbol v1)) (
            pop_back_while_symbol v2 s3 (omega arith)
            ∙ ap (◌∷◌ (link_symbol v2)) (pop_back_while_symbol v3 s (omega arith))))

pub base64_url_encode_two :
    (a b : ℕ)
    → (let n = a * 2 ^ 16 + b * 2 ^ 8 in
        base64_url_encode (a ∷ b ∷ [])
        ≡ link_symbol (n / 2 ^ 18 % 64)
          ∷ link_symbol (n / 2 ^ 12 % 64)
          ∷ link_symbol (n / 2 ^ 6 % 64)
          ∷ [])
unfolding base64_url_encode base64_groups pop_back_while
base64_url_encode_two a b =
    let n = a * 2 ^ 16 + b * 2 ^ 8 in
    let v0 = n / 2 ^ 18 % 64 in
    let v1 = n / 2 ^ 12 % 64 in
    let v2 = n / 2 ^ 6 % 64 in
    pop_back_while_symbol v0 (link_symbol v1 ∷ link_symbol v2 ∷ b'=' ∷ []) (omega arith)
    ∙ ap (◌∷◌ (link_symbol v0)) (
        pop_back_while_symbol v1 (link_symbol v2 ∷ b'=' ∷ []) (omega arith)
        ∙ ap (◌∷◌ (link_symbol v1)) (pop_back_while_symbol v2 (b'=' ∷ []) (omega arith)))

pub base64_url_encode_one :
    (a : ℕ)
    → (let n = a * 2 ^ 16 in
        base64_url_encode (a ∷ [])
        ≡ link_symbol (n / 2 ^ 18 % 64) ∷ link_symbol (n / 2 ^ 12 % 64) ∷ [])
unfolding base64_url_encode base64_groups pop_back_while
base64_url_encode_one a =
    let n = a * 2 ^ 16 in
    let v0 = n / 2 ^ 18 % 64 in
    let v1 = n / 2 ^ 12 % 64 in
    pop_back_while_symbol v0 (link_symbol v1 ∷ b'=' ∷ b'=' ∷ []) (omega arith)
    ∙ ap (◌∷◌ (link_symbol v0)) (pop_back_while_symbol v1 (b'=' ∷ b'=' ∷ []) (omega arith))

value_or_pad-from_url : (n : ℕ) → n < 64 → value_or_pad (from_url (link_symbol n)) ≡ some n
value_or_pad-from_url n h = rw (from_url-differs n h) (symbol_value-from_url n h)

padded_group : (a b c d : ℕ) (s : List ℕ) → padded (a ∷ b ∷ c ∷ d ∷ s) ≡ a ∷ b ∷ c ∷ d ∷ padded s
padded_group a b c d s =
    let same : (4 - suc (suc (suc (suc (length s)))) % 4) % 4 ≡ (4 - length s % 4) % 4 =
      omega arith in
    ap (λ n. a ∷ b ∷ c ∷ d ∷ s ++ replicate n b'=') same

group_bytes_full :
    (c2 c3 v0 v1 v2 v3 : ℕ)
    → (c2 == b'=') ≡ false
    → (c3 == b'=') ≡ false
    → (let n = v0 * 2 ^ 18 + v1 * 2 ^ 12 + v2 * 2 ^ 6 + v3 in
        group_bytes c2 c3 (some v0) (some v1) (some v2) (some v3)
        ≡ some (n / 2 ^ 16 % 256 ∷ n / 2 ^ 8 % 256 ∷ n % 256 ∷ []))
group_bytes_full c2 c3 v0 v1 v2 v3 h k = rw (h, k) refl

pub base64_url_decode_group :
    (v0 v1 v2 v3 : ℕ) (s : List ℕ)
    → v0 < 64
    → v1 < 64
    → v2 < 64
    → v3 < 64
    → (let n = v0 * 2 ^ 18 + v1 * 2 ^ 12 + v2 * 2 ^ 6 + v3 in
        base64_url_decode (link_symbol v0 ∷ link_symbol v1 ∷ link_symbol v2 ∷ link_symbol v3 ∷ s)
        ≡ appended (some (n / 2 ^ 16 % 256 ∷ n / 2 ^ 8 % 256 ∷ n % 256 ∷ [])) (base64_url_decode s))
unfolding base64_url_decode decode_groups
base64_url_decode_group v0 v1 v2 v3 s h0 h1 h2 h3 =
    let c2 = from_url (link_symbol v2) in
    let c3 = from_url (link_symbol v3) in
    ap decode_groups
      (padded_group (from_url (link_symbol v0)) (from_url (link_symbol v1)) c2 c3 (map from_url s))
    ∙ rw
        (
          symbol_value-from_url v0 h0,
          symbol_value-from_url v1 h1,
          value_or_pad-from_url v2 h2,
          value_or_pad-from_url v3 h3,
          decode_groups,
        )
        (ap (λ o. appended o (base64_url_decode s))
          (group_bytes_full c2 c3 v0 v1 v2 v3 (from_url-differs v2 h2) (from_url-differs v3 h3)))

pub base64_url_decode_two :
    (v0 v1 v2 : ℕ)
    → v0 < 64
    → v1 < 64
    → v2 < 64
    → (let n = v0 * 2 ^ 18 + v1 * 2 ^ 12 + v2 * 2 ^ 6 + 0 in
        base64_url_decode (link_symbol v0 ∷ link_symbol v1 ∷ link_symbol v2 ∷ [])
        ≡ some (n / 2 ^ 16 % 256 ∷ n / 2 ^ 8 % 256 ∷ []))
unfolding base64_url_decode decode_groups
base64_url_decode_two v0 v1 v2 h0 h1 h2 =
    rw
      (
        symbol_value-from_url v0 h0,
        symbol_value-from_url v1 h1,
        value_or_pad-from_url v2 h2,
        from_url-differs v2 h2,
      )
      refl

pub base64_url_decode_one :
    (v0 v1 : ℕ)
    → v0 < 64
    → v1 < 64
    → (let n = v0 * 2 ^ 18 + v1 * 2 ^ 12 + 0 + 0 in
        base64_url_decode (link_symbol v0 ∷ link_symbol v1 ∷ []) ≡ some (n / 2 ^ 16 % 256 ∷ []))
unfolding base64_url_decode decode_groups
base64_url_decode_one v0 v1 h0 h1 =
    rw (symbol_value-from_url v0 h0, symbol_value-from_url v1 h1) refl
