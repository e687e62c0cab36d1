-- ===== src/Links/Connect/RoundTrip.antt =====
-- A link that OnShareConnectionLink copies fills in the same connection where ApplyConnectUri reads
-- it (windows-client-cpp/src/MainFrame.cpp).
use Prim.Native.String.{String}
use text.Mathlib.Text.{◌==◌ as str_eq}
use o_walkie.Base.{
  ℕ, ℤ, pos, negsuc, ◌<◌, ◌^◌, ◌≡◌, refl, ap, ◌∙◌, Bool, true, false, List, [], ◌∷◌, is_empty, All,
  Option, none, some, if◌then◌else◌, arith,
}
use o_walkie.Endpoint.{codes}
use o_walkie.Links.Connect.Encoding.{apply_connect_uri-encoding, apply_payload-encoding}
use o_walkie.Links.Connect.Copied.{payload, shared_port, share_connection_link-copied}
use o_walkie.Links.Connect.{
  LinkJson, Form, is_port, deep_link_applied, copied, members, share_connection_link,
  apply_connect_uri, put_place, read_place, named,
}

-- The first member of a name.
unfoldable pub field : {A : Type 0} → String → List (String × A) → Option A
field key [] = none
field key ((k, a) ∷ fields) = if str_eq k key then some a else field key fields

abbrev shared_name : List ℕ → List ℕ
shared_name name = if is_empty name then codes "Connection" else name

module _ (lib : LinkJson) where
  open lib use {Json, parse, dump, value_string, value_int, object, of_string, of_int}

  -- What nlohmann documents of the calls: a text that dump writes is of bytes, and parse reads the
  -- value back from it; an empty text is malformed; value() of an object is the member's, and the
  -- default where there is none.
  pub record IsJson (include : Bool) (form : Form) (port : ℤ) : Type 0 where
    pub dump_bytes :
        (text : List ℕ) → dump (payload lib include form port) ≡ some text → All (λ b. b < 256) text
    pub parse_dump :
        (text : List ℕ)
        → dump (payload lib include form port) ≡ some text
        → parse text ≡ some (payload lib include form port)
    pub parse_empty : parse [] ≡ none
    pub string_member :
        (fields : List (String × Json)) (key : String) (text default : List ℕ)
        → field key fields ≡ some (of_string text)
        → value_string (object fields) key default ≡ some text
    pub string_missing :
        (fields : List (String × Json)) (key : String) (default : List ℕ)
        → field key fields ≡ none
        → value_string (object fields) key default ≡ some default
    pub int_member :
        (fields : List (String × Json)) (key : String) (n : ℕ) (default : ℤ)
        → n < 2 ^ 31
        → field key fields ≡ some (of_int (pos n))
        → value_int (object fields) key default ≡ some (pos n)

module _ (lib : LinkJson) where
  parsed_some :
      (text : List ℕ) (j : lib.Json)
      → lib.parse [] ≡ none
      → lib.parse text ≡ some j
      → is_empty text ≡ false
  parsed_some [] j h e = absurd (ground (arith, h, e))
  parsed_some (c ∷ s) j h e = refl

  is_empty-shared_name : (name : List ℕ) → is_empty (shared_name name) ≡ false
  is_empty-shared_name [] = refl
  is_empty-shared_name (c ∷ s) = refl

  named-payload :
      (include : Bool) (form base : Form) (port : ℤ)
      → IsJson lib include form port
      → named lib base (lib.value_string (payload lib include form port) "name" []) ≡ (
        record base { name = if include then shared_name form.name else base.name },
        deep_link_applied,
      )
  unfolding field
  named-payload true form base port laws =
      let fields = members lib true form.host port form.channel form.name in
      rw
        (
          laws.string_member fields "name" (shared_name form.name) [] refl,
          is_empty-shared_name form.name,
        )
        refl
  named-payload false form base port laws =
      rw
        (laws.string_missing (members lib false form.host port form.channel form.name) "name" []
          refl)
        refl

  read_place-payload :
      (include : Bool) (form : Form) (n : ℕ)
      → IsJson lib include form (pos n)
      → n < 2 ^ 31
      → read_place lib (payload lib include form (pos n))
        ≡ some (record { host = form.host; channel = form.channel; port = pos n })
  unfolding field
  read_place-payload include form n laws small =
      let fields = members lib include form.host (pos n) form.channel form.name in
      rw
        (
          laws.string_member fields "host" form.host [] refl,
          laws.string_member fields "channel" form.channel [] refl,
          laws.int_member fields "port" n (pos 0) small refl,
        )
        refl

  put_place-payload :
      (include : Bool) (form old : Form) (n : ℕ)
      → IsJson lib include form (pos n)
      → is_port (pos n) ≡ true
      → is_empty form.host ≡ false
      → is_empty form.channel ≡ false
      → (let j = payload lib include form (pos n) in
          put_place lib j old (read_place lib j) ≡ (
            record {
              host = form.host;
              port = some (pos n);
              channel = form.channel;
              name = if include then shared_name form.name else old.name;
            },
            deep_link_applied,
          ))
  unfolding is_port
  put_place-payload include form old n laws p f c =
      let j = payload lib include form (pos n) in
      let small : n < 2 ^ 31 = ground arith in
      let full = record old { host = form.host; port = some (pos n); channel = form.channel } in
      let put : put_place lib j old
            (some (record { host = form.host; channel = form.channel; port = pos n }))
          ≡ named lib full (lib.value_string j "name" []) =
        rw (f, c, p) refl in
      ap (put_place lib j old) (read_place-payload include form n laws small)
      ∙ put
      ∙ named-payload include form full (pos n) laws

  -- A link that was copied from a form, read into another form, fills in the host, the port and the
  -- channel of the first one. The name is filled in if the link was to carry it, where an empty one
  -- is "Connection", and is left as it was otherwise.
  pub apply_connect_uri-share_connection_link :
      (include : Bool) (form old : Form) (port : ℤ) (uri : List ℕ)
      → IsJson lib include form port
      → form.port ≡ some port
      → share_connection_link lib include form ≡ copied uri
      → apply_connect_uri lib uri old ≡ (
        record {
          host = form.host;
          port = some port;
          channel = form.channel;
          name = if include then shared_name form.name else old.name;
        },
        deep_link_applied,
      )
  apply_connect_uri-share_connection_link include form old (negsuc n) uri laws e h =
      absurd (
        shared_port lib n
          (share_connection_link-copied lib include form (negsuc n) uri e h).port_ok)
  apply_connect_uri-share_connection_link include form old (pos n) uri laws e h =
      let shared = share_connection_link-copied lib include form (pos n) uri e h in
      let text = shared.text in
      let parsed = laws.parse_dump text shared.dumped in
      let j = payload lib include form (pos n) in
      ap (λ uri. apply_connect_uri lib uri old) shared.link
      ∙ apply_connect_uri-encoding lib text old
      ∙ apply_payload-encoding lib text j old (laws.dump_bytes text shared.dumped)
          (parsed_some text j laws.parse_empty parsed) parsed
      ∙ put_place-payload include form old n laws shared.port_ok shared.host_ok shared.channel_ok
