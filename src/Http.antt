-- ===== src/Http.antt =====
-- The HTTP client: src/LibeventHttpClientImpl.h with `HttpParameter` and the enumerations of
-- src/HttpClient.h, behind the forwarding methods of src/HttpClient.cpp. Here are the state, cleaning
-- up and what a request is made of; `Requesting` starts and cancels a request, `Answering` has the
-- callbacks. libevent's evhttp functions are what the code passes to them, with their answers in
-- `Libevent`; the user's parameters are taken to live as long as the client points at them.
pub mod Texts
pub mod Content
pub mod Requesting
pub mod Answering
pub mod Query
pub mod Body
pub mod Building
pub mod Made
pub mod History
pub mod Cleaning
pub mod Answered
pub mod Invariant
pub mod Chunked
pub mod Repeated
pub mod Reentered
mod Tests
use coconut.Base.{
  ℕ, Bool, true, false, List, [], ◌∷◌, ◌++◌, Option, none, some, Bytes, if◌then◌else◌, ◌==◌, Result,
  ok, fault, M, ◌>>=◌, ◌>>◌, pure, gets, modify,
}

-- `HttpParameter::parameter_t`
pub data ParameterType : Type 0 where
  header_type file_type string_type : ParameterType

pub record Parameter : Type 0 where
  pub type : ParameterType
  pub key : Bytes
  pub value : Bytes

-- `addHeader`, `addParameter` and `addFile` of `HttpParameter`, whose vector is a list.
abbrev pub HttpParameter : Type 0
HttpParameter = List Parameter

unfoldable pub add_header : Bytes → Bytes → HttpParameter → HttpParameter
add_header key value ps = ps ++ record { type = header_type; key = key; value = value } ∷ []

unfoldable pub add_parameter : Bytes → Bytes → HttpParameter → HttpParameter
add_parameter key value ps = ps ++ record { type = string_type; key = key; value = value } ∷ []

unfoldable pub add_file : Bytes → Bytes → HttpParameter → HttpParameter
add_file key file_path ps = ps ++ record { type = file_type; key = key; value = file_path } ∷ []

-- What evhttp_uri_parse has found: no host is NULL, and no port is -1.
pub record Uri : Type 0 where
  pub host : Option Bytes
  pub port : Option ℕ
  pub path : Bytes

-- The answers of libevent and of the system: the arguments in a URI, its parts, the encoding of a
-- value, whether a header is taken, the contents of a file that can be opened, and `%d` of an int.
pub record Libevent : Type 0 where
  pub parse_query : Bytes → List (Bytes × Bytes)
  pub uri_parse : Bytes → Option Uri
  pub uriencode : Bytes → Bytes
  pub accepts_header : Bytes → Bytes → Bool
  pub open_file : Bytes → Option Bytes
  pub print_int : ℕ → Bytes

pub record HttpRequest : Type 0 where
  pub output_headers : List (Bytes × Bytes)
  pub output_buffer : Bytes

pub record HttpConnection : Type 0 where
  pub dnsbase : Bool
  pub host : Bytes
  pub port : ℕ
  pub timeout : ℕ

pub data MethodType : Type 0 where
  http_post http_get http_unknown : MethodType

abbrev pub is_post : MethodType → Bool
is_post http_post = true
is_post _ = false

abbrev pub is_get : MethodType → Bool
is_get http_get = true
is_get _ = false

-- `HttpClient::RequestState` and `HttpClient::ErrorCode`
pub data RequestState : Type 0 where
  prepare requesting receiving_response : RequestState

abbrev pub is_prepare : RequestState → Bool
is_prepare prepare = true
is_prepare _ = false

abbrev pub is_requesting : RequestState → Bool
is_requesting requesting = true
is_requesting _ = false

pub data ErrorCode : Type 0 where
  no_error connection_timeout response_error canceled : ErrorCode

-- What libevent is asked to do, and the calls of the event handler.
pub data Call : Type 0 where
  make_request : HttpConnection → HttpRequest → Bool → Bytes → Call
  cancel_request free_connection free_request free_uri free_dnsbase free_buffer : Call
  on_response on_received_chunked : ℕ → Call
  on_error : ErrorCode → Call

pub record HttpClient : Type 0 where
  pub state : RequestState
  pub evcon : Option HttpConnection
  pub dnsbase : Bool
  pub req : Option HttpRequest
  pub evuri : Option Uri
  pub responsebuffer : Option Bytes
  pub method : MethodType
  pub uri : Bytes
  pub param_temp : Option HttpParameter
  pub timeout : ℕ
  pub response_body : Bytes
  pub param : HttpParameter
  pub chunkmode : Bool
  pub multipart : Bool
  pub boundary : Bytes
  pub input_headers : List (Bytes × Bytes)
  pub response_code : ℕ
  pub calls : List Call

-- The constructor with its arguments; HTTP_INTERNAL is 500.
abbrev pub make : MethodType → Bytes → Option HttpParameter → ℕ → HttpClient
make method uri param timeout = record {
  state = prepare;
  evcon = none;
  dnsbase = false;
  req = none;
  evuri = none;
  responsebuffer = none;
  method = method;
  uri = uri;
  param_temp = param;
  timeout = timeout;
  response_body = [];
  param = [];
  chunkmode = true;
  multipart = true;
  boundary = [];
  input_headers = [];
  response_code = 500;
  calls = [];
}

abbrev pub log : Call → M HttpClient (Unit {0})
log c = modify (λ s. record s { calls = s.calls ++ c ∷ [] })

abbrev pub when : Bool → M HttpClient (Unit {0}) → M HttpClient (Unit {0})
when b m s = if b then m s else (ok tt, s)

abbrev pub is_some {ℓ} : {A : Type ℓ} → Option A → Bool
is_some none = false
is_some (some a) = true

abbrev pub the : {A : Type 0} → (HttpClient → Option A) → M HttpClient A
the f s = elim (f s) [ none ↦ (fault, s) | some a ↦ (ok a, s) ]

-- A change of the request that `req_` points at.
abbrev pub on_request : (HttpRequest → HttpRequest) → M HttpClient (Unit {0})
on_request f = do r ← the (λ s. s.req); modify (λ s. record s { req = some (f r) })

unfoldable pub clean_up : Bool → M HttpClient (Unit {0})
clean_up delete_req_flag = do
  modify (λ s. record s { state = prepare })
  con ← gets (λ s. is_some s.evcon)
  when con (do log free_connection; modify (λ s. record s { evcon = none; req = none }))
  req ← gets (λ s. is_some s.req)
  when req (do when delete_req_flag (log free_request); modify (λ s. record s { req = none }))
  uri ← gets (λ s. is_some s.evuri)
  when uri (do log free_uri; modify (λ s. record s { evuri = none }))
  dns ← gets (λ s. s.dnsbase)
  when dns (do log free_dnsbase; modify (λ s. record s { dnsbase = false }))
  buffer ← gets (λ s. is_some s.responsebuffer)
  when buffer (do log free_buffer; modify (λ s. record s { responsebuffer = none }))

-- Equal keys of a map.
abbrev pub equal_keys : Bytes → Bytes → Bool
equal_keys [] [] = true
equal_keys [] (d ∷ ds) = false
equal_keys (c ∷ cs) [] = false
equal_keys (c ∷ cs) (d ∷ ds) = if c == d then equal_keys cs ds else false

abbrev pub find : Bytes → List (Bytes × Bytes) → Option Bytes
find key [] = none
find key ((k, v) ∷ l) = if equal_keys key k then some v else find key l

-- `findHeader`, which gives an empty text for a key that is not there.
unfoldable pub find_header : Bytes → HttpClient → Bytes
find_header key s = elim (find key s.input_headers) [ none ↦ [] | some v ↦ v ]
