-- ===== src/Links/Connect/Copied.antt =====
-- What a link that OnShareConnectionLink copies says of the form that it comes from
-- (windows-client-cpp/src/MainFrame.cpp).
use o_walkie.Base.{
  ℕ, ℤ, negsuc, ◌≡◌, refl, Bool, true, false, not, ◌||◌, List, ◌++◌, is_empty, Option, none, some,
  if◌then◌else◌, arith,
}
use o_walkie.Links.{base64_url_encode}
use o_walkie.Links.Connect.{
  LinkJson, Form, is_port, marker, copied, invalid_port, invalid_form, members,
  share_connection_link, share_port, link_of,
}

module _ (lib : LinkJson) where
  abbrev pub payload : Bool → Form → ℤ → lib.Json
  payload include form port = lib.object (members lib include form.host port form.channel form.name)

  pub shared_port : (n : ℕ) → is_port (negsuc n) ≡ true → ⊥
  unfolding is_port
  shared_port n h = ground (arith, h)

  -- What a copied link says of the form that it comes from.
  pub record IsShared (include : Bool) (form : Form) (port : ℤ) (uri : List ℕ) : Type 0 where
    pub port_ok : is_port port ≡ true
    pub host_ok : is_empty form.host ≡ false
    pub channel_ok : is_empty form.channel ≡ false
    pub text : List ℕ
    pub dumped : lib.dump (payload include form port) ≡ some text
    pub link : uri ≡ marker ++ base64_url_encode text

  link_of-copied :
      (o : Option (List ℕ)) (uri : List ℕ)
      → link_of lib o ≡ copied uri
      → (text : List ℕ) × (o ≡ some text) × (uri ≡ marker ++ base64_url_encode text)
  link_of-copied none uri h = cc
  link_of-copied (some text) uri h = (text, refl, cc)

  guarded :
      (a b c : Bool) (o : Option (List ℕ)) (uri : List ℕ)
      → (if not a then invalid_port else if b || c then invalid_form else link_of lib o)
        ≡ copied uri
      → (a ≡ true) × (b ≡ false) × (c ≡ false) × (link_of lib o ≡ copied uri)
  guarded false b c o uri h = cc
  guarded true true c o uri h = cc
  guarded true false true o uri h = cc
  guarded true false false o uri h = (refl, refl, refl, h)

  share_port-copied :
      (include : Bool) (form : Form) (port : ℤ) (uri : List ℕ)
      → share_port lib include form port ≡ copied uri
      → IsShared include form port uri
  share_port-copied include form port uri h =
      let (p, f, c, l) =
        guarded (is_port port) (is_empty form.host) (is_empty form.channel)
          (lib.dump (payload include form port)) uri h in
      let (text, d, link) = link_of-copied (lib.dump (payload include form port)) uri l in
      record { port_ok = p; host_ok = f; channel_ok = c; text = text; dumped = d; link = link }

  pub share_connection_link-copied :
      (include : Bool) (form : Form) (port : ℤ) (uri : List ℕ)
      → form.port ≡ some port
      → share_connection_link lib include form ≡ copied uri
      → IsShared include form port uri
  unfolding share_connection_link
  share_connection_link-copied include form port uri e h =
      share_port-copied include form port uri (rw e at h)
