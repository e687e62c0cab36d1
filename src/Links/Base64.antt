-- ===== src/Links/Base64.antt =====
-- Base64UrlEncode is undone by Base64UrlDecode (MainFrame.cpp), for bytes of any number.
pub mod Groups
use o_walkie.Base.{
  ◌∙◌, ℕ, ◌+◌, ◌-◌, ◌*◌, ◌/◌, ◌%◌, ◌^◌, ◌<◌, ◌≡◌, refl, ap, sym, false, List, [], ◌∷◌, is_empty,
  All, some, arith,
}
use mathlib.Core.Path.{subst}
use o_walkie.Links.{
  base64_groups, pop_back_while, base64_url_encode, base64_url_decode, appended, decode_groups,
}
use o_walkie.Links.Base64.Groups.{
  link_symbol, base64_url_encode_group, base64_url_encode_two, base64_url_encode_one,
  base64_url_decode_group, base64_url_decode_two, base64_url_decode_one,
}

-- The four groups of six bits of a number below 2 ^ 24 are that number.
sextets :
    (n : ℕ)
    → n < 2 ^ 24
    → n / 2 ^ 18 % 64 * 2 ^ 18 + n / 2 ^ 12 % 64 * 2 ^ 12 + n / 2 ^ 6 % 64 * 2 ^ 6 + n % 64 ≡ n
sextets n h = omega arith

octets :
    (a b c : ℕ)
    → a < 256
    → b < 256
    → c < 256
    → (let n = a * 2 ^ 16 + b * 2 ^ 8 + c in
        (n < 2 ^ 24) × (n / 2 ^ 16 % 256 ≡ a) × (n / 2 ^ 8 % 256 ≡ b) × (n % 256 ≡ c))
octets a b c ha hb hc = (omega arith, omega arith, omega arith, omega arith)

encoded_one : (a : ℕ) → a < 256 → base64_url_decode (base64_url_encode (a ∷ [])) ≡ some (a ∷ [])
encoded_one a ha =
    let n = a * 2 ^ 16 in
    let v0 = n / 2 ^ 18 % 64 in
    let v1 = n / 2 ^ 12 % 64 in
    let same : (v0 * 2 ^ 18 + v1 * 2 ^ 12 + 0 + 0) / 2 ^ 16 % 256 ≡ a = omega arith in
    ap base64_url_decode (base64_url_encode_one a)
    ∙ base64_url_decode_one v0 v1 (omega arith) (omega arith)
    ∙ ap (λ x. some (x ∷ [])) same

encoded_two :
    (a b : ℕ)
    → a < 256
    → b < 256
    → base64_url_decode (base64_url_encode (a ∷ b ∷ [])) ≡ some (a ∷ b ∷ [])
encoded_two a b ha hb =
    let n = a * 2 ^ 16 + b * 2 ^ 8 in
    let v0 = n / 2 ^ 18 % 64 in
    let v1 = n / 2 ^ 12 % 64 in
    let v2 = n / 2 ^ 6 % 64 in
    let whole : v0 * 2 ^ 18 + v1 * 2 ^ 12 + v2 * 2 ^ 6 + 0 ≡ n = omega arith in
    let first : n / 2 ^ 16 % 256 ≡ a = omega arith in
    let second : n / 2 ^ 8 % 256 ≡ b = omega arith in
    ap base64_url_decode (base64_url_encode_two a b)
    ∙ base64_url_decode_two v0 v1 v2 (omega arith) (omega arith) (omega arith)
    ∙ ap (λ n. some (n / 2 ^ 16 % 256 ∷ n / 2 ^ 8 % 256 ∷ [])) whole
    ∙ rw (first, second) refl

encoded_group :
    (a b c : ℕ) (bytes : List ℕ)
    → a < 256
    → b < 256
    → c < 256
    → base64_url_decode (base64_url_encode (a ∷ b ∷ c ∷ bytes))
      ≡ appended (some (a ∷ b ∷ c ∷ [])) (base64_url_decode (base64_url_encode bytes))
encoded_group a b c bytes ha hb hc =
    let n = a * 2 ^ 16 + b * 2 ^ 8 + c in
    let (small, first, second, third) = octets a b c ha hb hc in
    let rest = base64_url_encode bytes in
    ap base64_url_decode (base64_url_encode_group a b c bytes)
    ∙ base64_url_decode_group (n / 2 ^ 18 % 64) (n / 2 ^ 12 % 64) (n / 2 ^ 6 % 64) (n % 64) rest
        (omega arith) (omega arith) (omega arith) (omega arith)
    ∙ ap
        (λ n.
          appended (some (n / 2 ^ 16 % 256 ∷ n / 2 ^ 8 % 256 ∷ n % 256 ∷ []))
            (base64_url_decode rest))
        (sextets n small)
    ∙ rw (first, second, third) refl

-- Decoding the encoding of any bytes gives them back.
pub base64_url_decode-base64_url_encode :
    (bytes : List ℕ)
    → All (λ b. b < 256) bytes
    → base64_url_decode (base64_url_encode bytes) ≡ some bytes
unfolding base64_url_decode base64_url_encode base64_groups decode_groups pop_back_while
base64_url_decode-base64_url_encode [] h = refl
base64_url_decode-base64_url_encode (a ∷ []) h = encoded_one a h.0
base64_url_decode-base64_url_encode (a ∷ b ∷ []) h = encoded_two a b h.0 h.1.0
base64_url_decode-base64_url_encode (a ∷ b ∷ c ∷ bytes) h =
    encoded_group a b c bytes h.0 h.1.0 h.1.1.0
    ∙ ap (appended (some (a ∷ b ∷ c ∷ []))) (base64_url_decode-base64_url_encode bytes h.1.1.1)

-- What holds of every symbol holds of an encoding.
pub All-base64_url_encode {ℓ} :
    (P : ℕ → Type ℓ) (bytes : List ℕ)
    → ((n : ℕ) → n < 64 → P (link_symbol n))
    → All P (base64_url_encode bytes)
unfolding base64_url_encode base64_groups pop_back_while
All-base64_url_encode P [] h = tt
All-base64_url_encode P (a ∷ []) h =
    let n = a * 2 ^ 16 in
    subst (All P) (sym (base64_url_encode_one a))
      (h (n / 2 ^ 18 % 64) (omega arith), (h (n / 2 ^ 12 % 64) (omega arith), tt))
All-base64_url_encode P (a ∷ b ∷ []) h =
    let n = a * 2 ^ 16 + b * 2 ^ 8 in
    subst (All P) (sym (base64_url_encode_two a b)) (
      h (n / 2 ^ 18 % 64) (omega arith),
      (h (n / 2 ^ 12 % 64) (omega arith), (h (n / 2 ^ 6 % 64) (omega arith), tt)),
    )
All-base64_url_encode P (a ∷ b ∷ c ∷ bytes) h =
    let n = a * 2 ^ 16 + b * 2 ^ 8 + c in
    subst (All P) (sym (base64_url_encode_group a b c bytes)) (
      h (n / 2 ^ 18 % 64) (omega arith),
      (
        h (n / 2 ^ 12 % 64) (omega arith),
        (
          h (n / 2 ^ 6 % 64) (omega arith),
          (h (n % 64) (omega arith), All-base64_url_encode P bytes h),
        ),
      ),
    )

-- The encoding of some bytes is not empty.
pub base64_url_encode_some :
    (b : ℕ) (bytes : List ℕ) → is_empty (base64_url_encode (b ∷ bytes)) ≡ false
base64_url_encode_some a [] = ap is_empty (base64_url_encode_one a)
base64_url_encode_some a (b ∷ []) = ap is_empty (base64_url_encode_two a b)
base64_url_encode_some a (b ∷ c ∷ bytes) = ap is_empty (base64_url_encode_group a b c bytes)
