-- ===== src/Links/Connect/Encoding.antt =====
-- A link with an encoded payload, where ApplyConnectUri reads it
-- (windows-client-cpp/src/MainFrame.cpp).
use o_walkie.Base.{
  ℕ, ◌<◌, ◌≡◌, refl, ap, ◌∙◌, Bool, true, false, not, ◌&&◌, List, [], ◌∷◌, ◌++◌, length, drop,
  is_empty, All, All-map, some, arith,
}
use o_walkie.Links.{base64_url_encode, pop_back_while, symbol}
use o_walkie.Links.UrlForms.{all_below→}
use o_walkie.Links.Base64.Groups.{link_symbol, pop_back_while_cons}
use o_walkie.Links.Base64.{
  base64_url_encode_some, All-base64_url_encode, base64_url_decode-base64_url_encode,
}
use o_walkie.Links.Connect.{
  LinkJson, Form, marker, find_from, is_space, is_punctuation, trimmed, apply_connect_uri,
  apply_payload, put_place, read_place,
}

-- The bytes that no step of the reader takes away.
abbrev stays : ℕ → Bool
stays c = not (is_space c) && not (is_punctuation c)

link_symbol-stays : (n : ℕ) → n < 64 → stays (link_symbol n) ≡ true
unfolding symbol
link_symbol-stays n h = all_below→ (λ n. stays (link_symbol n)) 64 n refl h

encoding-stays : (bytes : List ℕ) → All (λ c. stays c ≡ true) (base64_url_encode bytes)
encoding-stays bytes = All-base64_url_encode (λ c. stays c ≡ true) bytes link_symbol-stays

pop_back_while-All :
    (test : ℕ → Bool) (s : List ℕ) → All (λ c. test c ≡ false) s → pop_back_while test s ≡ s
unfolding pop_back_while
pop_back_while-All test [] h = refl
pop_back_while-All test (c ∷ s) h =
    pop_back_while_cons test c s h.0 ∙ ap (◌∷◌ c) (pop_back_while-All test s h.1)

neither : (a b : Bool) → (not a && not b) ≡ true → (a ≡ false) × (b ≡ false)
neither true b h = absurd (ground (arith, h))
neither false true h = absurd (ground (arith, h))
neither false false h = (refl, refl)

stays-space : (c : ℕ) → stays c ≡ true → is_space c ≡ false
stays-space c h = (neither (is_space c) (is_punctuation c) h).0

stays-punctuation : (c : ℕ) → stays c ≡ true → is_punctuation c ≡ false
stays-punctuation c h = (neither (is_space c) (is_punctuation c) h).1

trimmed-encoding : (bytes : List ℕ) → trimmed (base64_url_encode bytes) ≡ base64_url_encode bytes
unfolding trimmed
trimmed-encoding bytes =
    let s = base64_url_encode bytes in
    let stay = encoding-stays bytes in
    ap (pop_back_while is_punctuation)
      (pop_back_while-All is_space s (All-map _ _ stays-space s stay))
    ∙ pop_back_while-All is_punctuation s (All-map _ _ stays-punctuation s stay)

drop-marker : (s : List ℕ) → drop (length marker) (marker ++ s) ≡ s
drop-marker s = refl

-- A payload that was encoded comes to the parser.
module _ (lib : LinkJson) where
  pub apply_connect_uri-encoding :
      (bytes : List ℕ) (form : Form)
      → apply_connect_uri lib (marker ++ base64_url_encode bytes) form
        ≡ apply_payload lib (base64_url_encode bytes) form
  unfolding apply_connect_uri find_from
  apply_connect_uri-encoding bytes form =
      ap (λ s. apply_payload lib s form) (trimmed-encoding bytes)

  pub apply_payload-encoding :
      (bytes : List ℕ) (j : lib.Json) (form : Form)
      → All (λ b. b < 256) bytes
      → is_empty bytes ≡ false
      → lib.parse bytes ≡ some j
      → apply_payload lib (base64_url_encode bytes) form ≡ put_place lib j form (read_place lib j)
  unfolding apply_payload
  apply_payload-encoding [] j form small h p = absurd (ground (arith, h))
  apply_payload-encoding (b ∷ bytes) j form small h p =
      rw (base64_url_encode_some b bytes, base64_url_decode-base64_url_encode (b ∷ bytes) small, p)
        refl
