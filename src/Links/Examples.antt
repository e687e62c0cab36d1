-- ===== src/Links/Examples.antt =====
-- Links at concrete values, with a small JSON library.
use Prim.Native.String.{String}
use mathlib.Core.Path.{subst}
use o_walkie.Base.{
  ap, ◌<◌, ℕ, ℤ, pos, ◌≡◌, refl, true, List, [], ◌∷◌, ◌++◌, Option, none, some, is_empty, All,
  arith, if◌then◌else◌,
}
use o_walkie.Endpoint.{codes}
use o_walkie.Links.{
  url_decode, url_encode, base64_url_encode, base64_url_decode, base64_groups, decode_groups,
  pop_back_while, symbol, symbol_value, hex_digit, is_unreserved,
}
use o_walkie.Links.UrlForms.{url_decode-url_encode}
use o_walkie.Links.Base64.{base64_url_decode-base64_url_encode}
use o_walkie.Links.Connect.{
  LinkJson, Form, is_port, marker, deep_link_applied, share_connection_link, apply_connect_uri,
}
use o_walkie.Links.Connect.RoundTrip.{field, IsJson, apply_connect_uri-share_connection_link}

abbrev a_word : List ℕ
a_word = codes "50% of 2+2"

a_word-encoded : url_encode a_word ≡ codes "50%25%20of%202%2B2"
unfolding url_encode hex_digit is_unreserved
a_word-encoded = refl

url_decode-url_encode_example : url_decode (url_encode a_word) ≡ a_word
url_decode-url_encode_example = url_decode-url_encode a_word (ground arith)

abbrev some_bytes : List ℕ
some_bytes = 251 ∷ 239 ∷ 190 ∷ 7 ∷ []

some_bytes-encoded : base64_url_encode some_bytes ≡ codes "----Bw"
unfolding base64_url_encode base64_groups pop_back_while symbol
some_bytes-encoded = refl

-- A last group whose third symbol is '=' and whose fourth one is not is read as two bytes.
odd_padding : base64_url_decode (codes "Qg=x") ≡ some (66 ∷ 49 ∷ [])
unfolding base64_url_decode decode_groups symbol_value
odd_padding = refl

base64_url_decode-base64_url_encode_example :
    base64_url_decode (base64_url_encode some_bytes) ≡ some some_bytes
base64_url_decode-base64_url_encode_example =
    base64_url_decode-base64_url_encode some_bytes (ground arith)

data Small : Type 0 where
  missing : Small
  text_value : List ℕ → Small
  int_value : ℤ → Small
  with_members : (String → Small) → Small

abbrev or_missing : Option Small → Small
or_missing none = missing
or_missing (some j) = j

abbrev small_object : List (String × Small) → Small
small_object fields = with_members (λ key. or_missing (field key fields))

abbrev string_of : List ℕ → Small → Option (List ℕ)
string_of default missing = some default
string_of default (text_value t) = some t
string_of default _ = none

abbrev int_of : ℤ → Small → Option ℤ
int_of default missing = some default
int_of default (int_value n) = some n
int_of default _ = none

abbrev member_of : Small → String → Small
member_of (with_members f) key = f key
member_of _ key = missing

abbrev a_form : Form
a_form = record {
  host = codes "relay.example";
  port = some (pos 5500);
  channel = codes "hikers";
  name = [];
}

abbrev other_form : Form
other_form = record { host = []; port = none; channel = []; name = codes "Old" }

abbrev a_payload : Small
a_payload = small_object (
    ("v", int_value (pos 1))
    ∷ ("host", text_value (codes "relay.example"))
    ∷ ("port", int_value (pos 5500))
    ∷ ("channel", text_value (codes "hikers"))
    ∷ ("name", text_value (codes "Connection"))
    ∷ [])

-- It writes every value as the same text, and reads every text but the empty one as one value.
abbrev one_value : LinkJson
one_value = record {
  Json = Small;
  parse = λ text. if is_empty text then none else some a_payload;
  dump = λ j. some (codes "{}");
  value_string = λ j key default. string_of default (member_of j key);
  value_int = λ j key default. int_of default (member_of j key);
  object = small_object;
  of_string = text_value;
  of_int = int_value;
}

unwrapped : {text : List ℕ} → some (codes "{}") ≡ some text → codes "{}" ≡ text
unwrapped h = ap (λ o. elim o [ none ↦ [] | some t ↦ t ]) h

braces : (text : List ℕ) → codes "{}" ≡ text → All (λ b. b < 256) text
braces text h = subst (All (λ b. b < 256)) h (omega arith, (omega arith, tt))

read_back : (text : List ℕ) → codes "{}" ≡ text → one_value.parse text ≡ some a_payload
read_back text h = subst (λ t. one_value.parse t ≡ some a_payload) h refl

one_value-IsJson : IsJson one_value true a_form (pos 5500)
unfolding field
one_value-IsJson = record {
  dump_bytes = λ text h. braces text (unwrapped h);
  parse_dump = λ text h. read_back text (unwrapped h);
  parse_empty = refl;
  string_member = λ fields key text default h. rw h refl;
  string_missing = λ fields key default h. rw h refl;
  int_member = λ fields key n default small h. rw h refl;
}

apply_connect_uri-share_connection_link_example :
    apply_connect_uri one_value (marker ++ base64_url_encode (codes "{}")) other_form ≡ (
      record {
        host = codes "relay.example";
        port = some (pos 5500);
        channel = codes "hikers";
        name = codes "Connection";
      },
      deep_link_applied,
    )
unfolding share_connection_link is_port
apply_connect_uri-share_connection_link_example =
    apply_connect_uri-share_connection_link one_value true a_form other_form (pos 5500)
      (marker ++ base64_url_encode (codes "{}")) one_value-IsJson refl refl
