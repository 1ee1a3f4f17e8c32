-- ===== src/Http/Tests.antt =====
-- The client of Http.antt at concrete values.
use mathlib.Core.Path.{subst}
use coconut.Base.{◌+◌, ◌≡◌, refl, arith, true, [], ◌∷◌, none, some, ok}
use coconut.Http
use coconut.Http.Answering
use coconut.Http.Answering.{Response}
use coconut.Http.Body.{all_parameters, made}
use coconut.Http.Made.{request_lem}
use coconut.Http.Chunked.{feed, request-chunks}
use coconut.Http.Content.{make_get_method_body}
use coconut.Http.History.{quiet, Inv, Reachable, start, step, request, chunked}
use coconut.Http.Invariant.{requests-Reachable}
use coconut.Http.Query.{make_get_method_body_lem}
use coconut.Http.Reentered.{again, cancel-request}
use coconut.Http.Repeated.{rounds, find_header-http_done_cb, rounds_lem}
use coconut.Http.Requesting
use coconut.Http.{
  HttpClient, Libevent, Parameter, http_get, http_post, header_type, file_type, string_type,
  prepare, find_header, is_some, add_parameter,
}

abbrev libevent : Libevent
libevent = record {
  parse_query = λ uri. (97 ∷ [], 49 ∷ []) ∷ [];
  uri_parse = λ uri. some (record { host = some (104 ∷ []); port = none; path = 47 ∷ [] });
  uriencode = λ value. value;
  accepts_header = λ key value. true;
  open_file = λ path. some (70 ∷ []);
  print_int = λ n. (48 + n) ∷ [];
}

abbrev text : Parameter
text = record { type = string_type; key = 107 ∷ []; value = 118 ∷ [] }

abbrev file : Parameter
file = record { type = file_type; key = 102 ∷ []; value = 112 ∷ [] }

abbrev header : Parameter
header = record { type = header_type; key = 72 ∷ []; value = 104 ∷ [] }

abbrev fresh : HttpClient
fresh = Http.make http_get (117 ∷ []) none 10

-- A request is open.
abbrev asking : HttpClient
asking = made libevent [] (104 ∷ []) (47 ∷ []) none (all_parameters libevent fresh) fresh

asked : Requesting.request libevent [] fresh ≡ (ok tt, asking)
asked = request_lem libevent [] (104 ∷ []) (47 ∷ []) none fresh refl refl

fresh-Reachable : Reachable libevent fresh
fresh-Reachable = start http_get (117 ∷ []) none 10

asking-Reachable : Reachable libevent asking
asking-Reachable =
    subst (λ o. Reachable libevent o.1) asked (step fresh (request []) refl fresh-Reachable)

fresh-Inv : Inv fresh
fresh-Inv = record {
  evcon = refl;
  req = refl;
  evuri = refl;
  dnsbase = refl;
  responsebuffer = refl;
  freed = refl;
  answered = omega arith;
}

abbrev posting : HttpClient
posting = Http.make http_post (117 ∷ []) (some (header ∷ text ∷ file ∷ [])) 10

request_lem_example : Requesting.request libevent (102 ∷ []) posting ≡ (
  ok tt,
  made libevent
      (102 ∷ [])
      (104 ∷ [])
      (47 ∷ [])
      none
      (header ∷ text ∷ file ∷ record { type = string_type; key = 97 ∷ []; value = 49 ∷ [] } ∷ [])
      posting,
)
unfolding add_parameter
request_lem_example = request_lem libevent (102 ∷ []) (104 ∷ []) (47 ∷ []) none posting refl refl

make_get_method_body_lem_example :
    make_get_method_body libevent (header ∷ text ∷ file ∷ text ∷ [])
    ≡ 107 ∷ 61 ∷ 118 ∷ 38 ∷ 38 ∷ 107 ∷ 61 ∷ 118 ∷ []
make_get_method_body_lem_example =
    make_get_method_body_lem libevent (header ∷ text ∷ file ∷ text ∷ [])

abbrev answer : Response
answer = record {
  response_code = 200;
  input_headers = (69 ∷ [], 49 ∷ []) ∷ (69 ∷ [], 50 ∷ []) ∷ [];
  input_buffer = [];
}

requests-Reachable_example : Inv (Answering.http_chunked_cb quiet (65 ∷ []) asking).1
requests-Reachable_example =
    requests-Reachable libevent (Answering.http_chunked_cb quiet (65 ∷ []) asking).1
      (step asking (chunked (65 ∷ [])) refl asking-Reachable)

request-chunks_example :
    let (x1, s1) = Requesting.request libevent [] fresh in
    let (x2, s2) = feed ((65 ∷ []) ∷ (66 ∷ []) ∷ []) s1 in
    let (x3, s3) = Answering.http_done_cb quiet (some answer) s2 in
    (x1 ≡ ok tt)
    × (x2 ≡ ok tt)
    × (x3 ≡ ok tt)
    × (s3.response_body ≡ 65 ∷ 66 ∷ [])
    × (s3.response_code ≡ 200)
    × (s3.state ≡ prepare)
request-chunks_example =
    request-chunks libevent [] (104 ∷ []) (47 ∷ []) none ((65 ∷ []) ∷ (66 ∷ []) ∷ []) answer fresh
      fresh-Inv refl refl refl refl

-- An earlier response had one header.
abbrev known : HttpClient
known = record asking { input_headers = (69 ∷ [], 48 ∷ []) ∷ [] }

asking-Inv : Inv asking
asking-Inv = requests-Reachable libevent asking asking-Reachable

known-Inv : Inv known
known-Inv = record {
  evcon = asking-Inv.evcon;
  req = asking-Inv.req;
  evuri = asking-Inv.evuri;
  dnsbase = asking-Inv.dnsbase;
  responsebuffer = asking-Inv.responsebuffer;
  freed = asking-Inv.freed;
  answered = asking-Inv.answered;
}

find_header-http_done_cb_example :
    find_header (69 ∷ []) (Answering.http_done_cb quiet (some answer) known).1 ≡ 48 ∷ []
find_header-http_done_cb_example =
    find_header-http_done_cb (69 ∷ []) answer known known-Inv refl refl

rounds_lem_example :
    let (x, s) = rounds libevent ([] ∷ [] ∷ []) fresh in
    (x ≡ ok tt)
    × (s.state ≡ prepare)
    × (s.param
        ≡ record { type = string_type; key = 97 ∷ []; value = 49 ∷ [] }
          ∷ record { type = string_type; key = 97 ∷ []; value = 49 ∷ [] }
          ∷ [])
rounds_lem_example =
    rounds_lem libevent ([] ∷ [] ∷ []) (117 ∷ []) (104 ∷ []) (47 ∷ []) none fresh
      (record { inv = fresh-Inv; ready = refl; no_user = refl; same_uri = refl; parsed = refl })

cancel-request_example :
    let (x, s) = Requesting.cancel (again libevent []) asking in
    (x ≡ ok tt)
    × (s.state ≡ prepare)
    × (is_some s.req ≡ true)
    × ((Requesting.request libevent [] s).0 ≡ ok tt)
cancel-request_example =
    cancel-request libevent [] (104 ∷ []) (47 ∷ []) none asking asking-Inv refl refl
