-- ===== src/Capsule/Client.antt =====
-- internal/capsule/client.go: bounded GET requests to the Capsule Proxy. The HTTP client is a
-- parameter.
pub mod Bounded
use tenant_deck.Base.{
  ℕ, ◌+◌, ◌*◌, ◌^◌, String, ◌+++◌, List, [], ◌∷◌, Option, none, some, Result, ok, err, Error,
  sentinel, message, wrapped, unauthorized, forbidden, map_error, length, take, ltb, leb, ◌==◌,
  if◌then◌else◌,
}
use tenant_deck.Base.Io.{Io, pure, lift, ◌>>=◌, ◌>>◌}
use tenant_deck.Base.Results
use tenant_deck.Std.Json.{Json}
use tenant_deck.Std.Json.Decode.{Decoder, decode_struct, decode_string, decode_raw_list, at}
use tenant_deck.Std.Strconv.{format_nat}
use tenant_deck.Std.Strings.{trim_right_slash}
use tenant_deck.Session.Crypto.{Bytes}
use tenant_deck.Session.Codec.{JsonText}

pub record Outgoing : Type 0 where
  pub method : String
  pub url : String
  pub headers : List (String × String)

-- The bytes that a body delivers, and the failure that ends it, if it does not end by EOF.
pub record Body : Type 0 where
  pub bytes : Bytes
  pub failure : Option Error

pub record Incoming : Type 0 where
  pub status : ℕ
  pub body : Body

-- http.NewRequestWithContext, which may refuse a URL, and the Do of an *http.Client.
pub record HttpClient (W : Type 0) : Type 0 where
  pub new_request : String → Result (Unit {0})
  pub send : Outgoing → Io W Incoming

pub record Client (W : Type 0) : Type 0 where
  pub base_url : String
  pub http_client : HttpClient W
  pub stream_client : HttpClient W
  pub text : JsonText

-- `stream_of` builds the client with no timeout over the same transport.
unfoldable pub new_client :
    {W : Type 0} → String → HttpClient W → (HttpClient W → HttpClient W) → JsonText → Client W
unfolding trim_right_slash
new_client base_url http_client stream_of text = record {
  base_url = trim_right_slash base_url;
  http_client = http_client;
  stream_client = stream_of http_client;
  text = text;
}

-- 10 << 20
abbrev pub max_response_bytes : ℕ
max_response_bytes = 10 * 2 ^ 20

-- io.ReadAll(io.LimitReader(r, limit+1)): the failure is met only if the limit is not.
unfoldable pub read_limited : ℕ → Body → Result Bytes
read_limited n b =
    if leb n (length b.bytes)
    then ok (take n b.bytes)
    else elim b.failure [ none ↦ ok b.bytes | some e ↦ err e ]

abbrev within : ℕ → Bytes → Result Bytes
within limit d =
    if ltb limit (length d) then err (message "capsule: response exceeded the limit") else ok d

unfoldable pub read_bounded : ℕ → Body → Result Bytes
unfolding read_limited
read_bounded limit b =
    Results.◌>>=◌ (map_error (wrapped "capsule: reading response") (read_limited (limit + 1) b))
      (within limit)

-- The outbound header allowlist.
abbrev pub request_for : String → String → String → Outgoing
request_for url id_token accept = record {
  method = "GET";
  url = url;
  headers = ("Authorization", "Bearer " +++ id_token) ∷ ("Accept", accept) ∷ [];
}

-- The outcome of a status: success only for 200.
unfoldable pub status_error : ℕ → Result (Unit {0})
status_error status =
    if status == 200
    then ok tt
    else if status == 401
    then err (sentinel unauthorized)
    else if status == 403
    then err (sentinel forbidden)
    else err (message "capsule: unexpected upstream status")

pub record GroupVersionResource : Type 0 where
  pub api_prefix : String
  pub resource : String

-- A raw message: what parsing its text gives.
abbrev pub RawMessage : Type 0
RawMessage = Result Json

-- json.Unmarshal of a raw message into a zero value.
abbrev pub unmarshal : {A : Type 0} → Decoder A → A → RawMessage → Result A
unmarshal dec zero raw = Results.◌>>=◌ raw λ v. dec v zero

-- A loop that appends each converted item, and returns at the first error.
unfoldable pub convert_all : {A B : Type 0} → (A → Result B) → List A → Result (List B)
convert_all f [] = ok []
convert_all f (x ∷ xs) = Results.◌>>=◌ (f x) λ y. Results.◌>>=◌ (convert_all f xs) λ ys. ok (y ∷ ys)

unfoldable pub decode_list : Decoder (List Json)
unfolding decode_struct
decode_list = decode_struct (("items", at (λ l. l) (λ l x. x) decode_raw_list) ∷ [])

unfoldable pub decode_metadata_name : Decoder String
unfolding decode_struct
decode_metadata_name = decode_struct (
    (
      "metadata",
      at (λ n. n) (λ n x. x) (decode_struct (("name", at (λ n. n) (λ n x. x) decode_string) ∷ [])),
    )
    ∷ [])

abbrev pub list_path : String → GroupVersionResource → ℕ → String
list_path namespace gvr limit =
    "/"
    +++ (gvr.api_prefix
        +++ ("/namespaces/"
            +++ (namespace
                +++ ("/"
                    +++ (gvr.resource
                        +++ (if ltb 0 limit then "?limit=" +++ format_nat limit else ""))))))

abbrev pub get_path : String → String → GroupVersionResource → String
get_path namespace name gvr =
    "/"
    +++ (gvr.api_prefix
        +++ ("/namespaces/" +++ (namespace +++ ("/" +++ (gvr.resource +++ ("/" +++ name))))))

-- The items of a list are parsed already.
abbrev pub raw_items : List Json → List RawMessage
raw_items [] = []
raw_items (v ∷ vs) = ok v ∷ raw_items vs

module _ {W : Type 0} (c : Client W) where
  abbrev sent : Outgoing → Io W Incoming
  sent req w = (
    map_error (wrapped "capsule: requesting") (c.http_client.send req w).0,
    (c.http_client.send req w).1,
  )

  unfoldable pub do_get : String → String → Io W Bytes
  do_get id_token path = do
    lift (c.http_client.new_request (c.base_url +++ path))
    resp ← sent (request_for (c.base_url +++ path) id_token "application/json")
    lift (status_error resp.status)
    lift (read_bounded max_response_bytes resp.body)

  unfoldable pub decode_items : Bytes → Result (List Json)
  decode_items data' =
      map_error (wrapped "capsule: decoding list") (unmarshal decode_list [] (c.text.parse data'))

  unfoldable pub list_namespaces : String → Io W (List String)
  list_namespaces id_token = do
    data' ← do_get id_token "/api/v1/namespaces"
    items ← lift (decode_items data')
    lift (
        convert_all
          (λ v. map_error (wrapped "capsule: decoding namespace item") (decode_metadata_name v ""))
          items)

  unfoldable pub list_namespaced_resource :
      String → String → GroupVersionResource → ℕ → Io W (List RawMessage)
  list_namespaced_resource id_token namespace gvr limit = do
    data' ← do_get id_token (list_path namespace gvr limit)
    items ← lift (decode_items data')
    pure (raw_items items)

  unfoldable pub get_namespaced_resource :
      String → String → String → GroupVersionResource → Io W RawMessage
  get_namespaced_resource id_token namespace name gvr = do
    data' ← do_get id_token (get_path namespace name gvr)
    pure (c.text.parse data')
