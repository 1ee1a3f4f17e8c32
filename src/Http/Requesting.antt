-- ===== src/Http/Requesting.antt =====
-- How a client of Http.antt starts a request and cancels it: src/LibeventHttpClientImpl.h. The code
-- ignores the result of evhttp_make_request, which frees the request when it fails; here it is taken to
-- succeed, and `start_request` is about that case alone.
use coconut.Base.{
  ℕ, true, false, not, List, [], ◌∷◌, Option, none, some, Bytes, M, ◌>>=◌, ◌>>◌, pure, gets, modify,
  throw_if, illegal_state,
}
use coconut.Http.{
  HttpParameter, Libevent, HttpClient, MethodType, prepare, requesting, is_prepare, is_post,
  make_request, cancel_request, on_error, ErrorCode, canceled, log, the, when, is_some, clean_up,
  add_parameter,
}
use coconut.Http.Content.{make_header_and_body, make_request_uri}

-- `addParameter` for each argument.
abbrev pub add_arguments : List (Bytes × Bytes) → HttpParameter → HttpParameter
add_arguments [] ps = ps
add_arguments ((key, value) ∷ l) ps = add_arguments l (add_parameter key value ps)

-- The user's parameters, or those that are there.
abbrev pub chosen : Option HttpParameter → HttpParameter → HttpParameter
chosen none ps = ps
chosen (some user) ps = user

-- The port of a URI, or 80.
abbrev pub port_of : Option ℕ → ℕ
port_of none = 80
port_of (some port) = port

module _ (libevent : Libevent) where
  unfoldable pub parse_parameter : M HttpClient (Unit {0})
  parse_parameter = do
    args ← gets (λ s. libevent.parse_query s.uri)
    modify (λ s. record s { param = chosen s.param_temp s.param })
    modify (λ s. record s { param = add_arguments args s.param })

  unfoldable pub make_uri_context : M HttpClient (Unit {0})
  make_uri_context = do
    modify (λ s. record s { evuri = libevent.uri_parse s.uri })
    the (λ s. s.evuri)
    pure tt

  unfoldable pub make_http_client : M HttpClient (Unit {0})
  make_http_client = do
    modify (λ s. record s { req = some (record { output_headers = []; output_buffer = [] }) })
    chunkmode ← gets (λ s. s.chunkmode)
    when chunkmode (modify (λ s. record s { responsebuffer = some [] }))

  unfoldable pub make_http_connection : M HttpClient (Unit {0})
  make_http_connection = do
    u ← the (λ s. s.evuri)
    host ← the (λ s. u.host)
    modify (λ s. record s {
      evcon =
          some (record {
            dnsbase = s.dnsbase;
            host = host;
            port = port_of u.port;
            timeout = s.timeout;
          });
    })

  unfoldable pub start_request : Bytes → M HttpClient (Unit {0})
  start_request request_uri = do
    modify (λ s. record s { dnsbase = true })
    con ← the (λ s. s.evcon)
    r ← the (λ s. s.req)
    post ← gets (λ s. is_post s.method)
    log (make_request con r post request_uri)
    modify (λ s. record s { state = requesting })

  -- `requestInternal`, with the characters of the boundary.
  unfoldable pub request_internal : Bytes → M HttpClient (Unit {0})
  request_internal digits = do
    parse_parameter
    make_uri_context
    make_http_client
    make_header_and_body libevent digits
    request_uri ← make_request_uri libevent
    make_http_connection
    start_request request_uri

  -- `request()`, and with a method, a URI, parameters and a timeout.
  unfoldable pub request : Bytes → M HttpClient (Unit {0})
  request digits = do
    x ← gets (λ s. s.state)
    throw_if (not (is_prepare x)) illegal_state
    request_internal digits

  unfoldable pub request_with :
      Bytes → MethodType → Bytes → Option HttpParameter → ℕ → M HttpClient (Unit {0})
  request_with digits method uri param timeout = do
    x ← gets (λ s. s.state)
    throw_if (not (is_prepare x)) illegal_state
    modify (λ s. record s { uri = uri; method = method; param_temp = param; timeout = timeout })
    request_internal digits

-- What the user's event handler does when it is called.
pub record EventHandler : Type 0 where
  pub response : ℕ → M HttpClient (Unit {0})
  pub received_chunked : ℕ → M HttpClient (Unit {0})
  pub error : ErrorCode → M HttpClient (Unit {0})

module _ (handler : EventHandler) where
  unfoldable pub fire_error : ErrorCode → M HttpClient (Unit {0})
  fire_error code = do clean_up false; log (on_error code); handler.error code

  -- `cancelRequest`
  unfoldable pub cancel : M HttpClient (Unit {0})
  cancel = do
    open_request ← gets (λ s. is_some s.req)
    when open_request
        (do log cancel_request; fire_error canceled; modify (λ s. record s { state = prepare }))
