-- ===== src/Links/UrlForms.antt =====
-- Percent encoding is undone by decoding (UrlEncode and UrlDecode of MainFrame.cpp).
use o_walkie.Base.{
  ◌∙◌, ℕ, zero, suc, ◌+◌, ◌*◌, ◌/◌, ◌%◌, ◌<◌, ◌≡◌, refl, ap, Bool, true, false, ◌&&◌, inl, inr,
  List, [], ◌∷◌, All, none, some, Option, ◌==◌, Bool-cases, arith,
}
use o_walkie.Links.{hex_value, hex_digit, url_decode, url_encode, is_unreserved}

-- A test that holds of every number below a bound.
abbrev pub all_below : (ℕ → Bool) → ℕ → Bool
all_below test zero = true
all_below test (suc n) = test n && all_below test n

pub all_below→ : (test : ℕ → Bool) (n k : ℕ) → all_below test n ≡ true → k < n → test k ≡ true
all_below→ test zero k h l = absurd (omega arith)
all_below→ test (suc n) k h l = elim (Bool-cases (k == n)) [
  | inl e ↦ let same : k ≡ n = ground arith in ground (arith, ap test same)
  | inr e ↦ ground (arith, all_below→ test n k)
]

abbrev pub is_some : ℕ → Option ℕ → Bool
is_some n none = false
is_some n (some m) = m == n

pub is_some→ : (n : ℕ) (o : Option ℕ) → is_some n o ≡ true → o ≡ some n
is_some→ n none h = cc
is_some→ n (some m) h = ground arith

hex_value-hex_digit : (d : ℕ) → d < 16 → hex_value (hex_digit d) ≡ some d
unfolding hex_value hex_digit
hex_value-hex_digit d h =
    is_some→ d (hex_value (hex_digit d))
      (all_below→ (λ d. is_some d (hex_value (hex_digit d))) 16 d refl h)

-- A byte that is neither '+' nor '%' stands for itself.
url_decode_plain :
    (c : ℕ) (s : List ℕ)
    → (c == b'+') ≡ false
    → (c == b'%') ≡ false
    → url_decode (c ∷ s) ≡ c ∷ url_decode s
unfolding url_decode
url_decode_plain c [] h k = ground arith
url_decode_plain c (d ∷ []) h k = ground arith
url_decode_plain c (d ∷ e ∷ s) h k = ground arith

url_decode_escape :
    (c : ℕ) (s : List ℕ)
    → c < 256
    → url_decode (b'%' ∷ hex_digit (c / 16 % 16) ∷ hex_digit (c % 16) ∷ s) ≡ c ∷ url_decode s
unfolding url_decode
url_decode_escape c s h =
    let hi = hex_value-hex_digit (c / 16 % 16) (omega arith) in
    let lo = hex_value-hex_digit (c % 16) (omega arith) in
    let both : c / 16 % 16 * 16 + c % 16 ≡ c = omega arith in ground (arith, hi, lo, both)

-- A byte that passes a test is none that fails it.
pub differs : (test : ℕ → Bool) (c k : ℕ) → test c ≡ true → test k ≡ false → (c == k) ≡ false
differs test c k h e = elim (Bool-cases (c == k)) [
  | inl same ↦ let equal : c ≡ k = ground arith in absurd (ground (arith, ap test equal))
  | inr other ↦ other
]

-- Decoding the encoding of any bytes gives them back.
pub url_decode-url_encode : (s : List ℕ) → All (λ c. c < 256) s → url_decode (url_encode s) ≡ s
unfolding url_encode url_decode is_unreserved
url_decode-url_encode [] h = refl
url_decode-url_encode (c ∷ s) h =
    let rest = url_decode-url_encode s h.1 in
    elim (Bool-cases (is_unreserved c)) [
      | inl e ↦
          rw (e, url_encode)
            (url_decode_plain c (url_encode s) (differs is_unreserved c b'+' e refl)
                (differs is_unreserved c b'%' e refl)
              ∙ ap (◌∷◌ c) rest)
      | inr e ↦ rw (e, url_encode) (url_decode_escape c (url_encode s) h.0 ∙ ap (◌∷◌ c) rest)
    ]
