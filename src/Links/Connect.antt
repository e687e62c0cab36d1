-- ===== src/Links/Connect.antt =====
-- Connection links: the payload and the link of OnShareConnectionLink, ApplyConnectUri, and the
-- cut of OnImportConnectionLink, of windows-client-cpp/src/MainFrame.cpp. nlohmann::json is a
-- parameter. The controls of the form are the fields of a record, and the port is the number that
-- wxString::ToLong reads in its control, if it reads one.
pub mod Encoding
pub mod Copied
pub mod RoundTrip
use Prim.Native.String.{String}
use o_walkie.Base.{
  ℕ, ℤ, pos, negsuc, Bool, false, not, ◌&&◌, ◌||◌, List, [], ◌∷◌, ◌++◌, length, drop, is_empty,
  Option, none, some, leb, ◌==◌, if◌then◌else◌,
}
use o_walkie.Endpoint.{codes, starts_with}
use o_walkie.Messages.{◌>>=◌}
use o_walkie.Links.{base64_url_encode, base64_url_decode, pop_back_while}

-- What the two functions use of nlohmann::json, with none for an exception.
pub record LinkJson : Type 1 where
  pub Json : Type 0
  pub parse : List ℕ → Option Json
  pub dump : Json → Option (List ℕ)
  pub value_string : Json → String → List ℕ → Option (List ℕ)
  pub value_int : Json → String → ℤ → Option ℤ
  pub object : List (String × Json) → Json
  pub of_string : List ℕ → Json
  pub of_int : ℤ → Json

pub record Form : Type 0 where
  pub host : List ℕ
  pub port : Option ℤ
  pub channel : List ℕ
  pub name : List ℕ

-- not (port < 1 || port > 65535)
unfoldable pub is_port : ℤ → Bool
is_port (pos n) = leb 1 n && leb n 65535
is_port (negsuc n) = false

abbrev pub scheme : List ℕ
scheme = codes "owalkie://"

abbrev pub marker : List ℕ
marker = codes "owalkie://connect/"

-- The text from the first occurrence of another one on: text.find(p)
pub find_from : List ℕ → List ℕ → Option (List ℕ)
find_from p [] = if is_empty p then some [] else none
find_from p (c ∷ s) = if starts_with p (c ∷ s) then some (c ∷ s) else find_from p s

-- ::isspace of the C locale
abbrev pub is_space : ℕ → Bool
is_space c = c == b' ' || leb 9 c && leb c 13

abbrev pub is_punctuation : ℕ → Bool
is_punctuation c =
    c == b'.'
    || c == b','
    || c == b';'
    || c == b':'
    || c == b'!'
    || c == b'?'
    || c == b')'
    || c == b']'
    || c == b'}'

-- The payload behind the marker, without spaces at its end, and then without punctuation there.
unfoldable pub trimmed : List ℕ → List ℕ
trimmed s = pop_back_while is_punctuation (pop_back_while is_space s)

pub data Verdict : Type 0 where
  invalid_link : Verdict
  thrown : Verdict
  deep_link_applied : Verdict

pub data Shared : Type 0 where
  invalid_port : Shared
  invalid_form : Shared
  not_dumped : Shared
  copied : List ℕ → Shared

pub record Place : Type 0 where
  pub host : List ℕ
  pub channel : List ℕ
  pub port : ℤ

module _ (lib : LinkJson) where
  open lib use {Json, parse, dump, value_string, value_int, object, of_string, of_int}

  abbrev pub name_members : Bool → List ℕ → List (String × Json)
  name_members include name =
      if include
      then ("name", of_string (if is_empty name then codes "Connection" else name)) ∷ []
      else []

  abbrev pub members : Bool → List ℕ → ℤ → List ℕ → List ℕ → List (String × Json)
  members include host port channel name =
      ("v", of_int (pos 1))
      ∷ ("host", of_string host)
      ∷ ("port", of_int port)
      ∷ ("channel", of_string channel)
      ∷ name_members include name

  abbrev link_of : Option (List ℕ) → Shared
  link_of none = not_dumped
  link_of (some text) = copied (marker ++ base64_url_encode text)

  abbrev share_port : Bool → Form → ℤ → Shared
  share_port include form port =
      if not (is_port port)
      then invalid_port
      else if is_empty form.host || is_empty form.channel
      then invalid_form
      else link_of (dump (object (members include form.host port form.channel form.name)))

  -- void MainFrame::OnShareConnectionLink(wxCommandEvent&), up to the clipboard, with the answer to
  -- its question
  unfoldable pub share_connection_link : Bool → Form → Shared
  share_connection_link include form = elim form.port [
    | none ↦ invalid_port
    | some port ↦ share_port include form port
  ]

  abbrev pub read_place : Json → Option Place
  read_place payload = do
    host ← value_string payload "host" []
    channel ← value_string payload "channel" []
    port ← value_int payload "port" (pos 0)
    some (record { host = host; channel = channel; port = port })

  abbrev named : Form → Option (List ℕ) → Form × Verdict
  named form none = (form, thrown)
  named form (some name) =
      (if is_empty name then form else record form { name = name }, deep_link_applied)

  abbrev put_place : Json → Form → Option Place → Form × Verdict
  put_place payload form none = (form, thrown)
  put_place payload form (some place) =
      if is_empty place.host || is_empty place.channel || not (is_port place.port)
      then (form, invalid_link)
      else named
          (record form { host = place.host; port = some (place.port); channel = place.channel })
          (value_string payload "name" [])

  unfoldable pub apply_payload : List ℕ → Form → Form × Verdict
  apply_payload payload_b64 form =
      if is_empty payload_b64 then (form, invalid_link) else elim (base64_url_decode payload_b64) [
        | none ↦ (form, invalid_link)
        | some decoded ↦ elim (parse decoded) [
          | none ↦ (form, invalid_link)
          | some payload ↦ put_place payload form (read_place payload)
        ]
      ]

  -- bool MainFrame::ApplyConnectUri(const std::string& uri), up to the profiles, with what it leaves
  -- in the form
  unfoldable pub apply_connect_uri : List ℕ → Form → Form × Verdict
  apply_connect_uri uri form =
      if not (starts_with scheme uri) then (form, invalid_link) else elim (find_from marker uri) [
        | none ↦ (form, invalid_link)
        | some at ↦ apply_payload (trimmed (drop (length marker) at)) form
      ]

  -- text.substr(start, end - start) for the first space behind the start
  pub until_space : List ℕ → List ℕ
  until_space [] = []
  until_space (c ∷ s) = if is_space c then [] else c ∷ until_space s

  -- void MainFrame::OnImportConnectionLink(wxCommandEvent&), from the text of the clipboard to what
  -- ApplyConnectUri makes of it
  unfoldable pub import_connection_link : List ℕ → Form → Form × Verdict
  import_connection_link text form = elim (find_from marker text) [
    | none ↦ (form, invalid_link)
    | some at ↦ apply_connect_uri (until_space at) form
  ]
