-- ===== src/Http/History.antt =====
-- The histories of a client of Http.antt. What its event handler calls in turn is the next action,
-- since the handler is called last, but in a cancellation it is taken to call nothing.
use coconut.Base.{
  ℕ, ◌+◌, ◌≤◌, ◌≡◌, arith, Bool, true, false, not, ◌&&◌, List, [], ◌∷◌, ◌++◌, Option, none, some,
  Bytes, if◌then◌else◌, M, pure,
}
use coconut.Http
use coconut.Http.{
  HttpClient, HttpConnection, HttpRequest, HttpParameter, Libevent, MethodType, Call, make_request,
  free_connection, on_response, on_error, is_prepare, is_some, prepare, requesting,
  receiving_response, RequestState, Uri, is_post, is_requesting, connection_timeout, response_error,
}
use coconut.Http.Answering
use coconut.Http.Answering.{Response}
use coconut.Http.Requesting
use coconut.Http.Requesting.{EventHandler, port_of}

abbrev pub quiet : EventHandler
quiet = record {
  response = λ code. pure tt;
  received_chunked = λ size. pure tt;
  error = λ code. pure tt;
}

-- The methods that a user calls, and what libevent calls.
pub data Action : Type 0 where
  request : Bytes → Action
  request_with : Bytes → MethodType → Bytes → Option HttpParameter → ℕ → Action
  cancel : Action
  clean_up : Bool → Action
  done : Option Response → Action
  chunked : Bytes → Action

-- A URI that libevent can parse, and that has a host.
abbrev pub has_host : Option Uri → Bool
has_host none = false
has_host (some u) = is_some u.host

-- libevent calls back for a request that there is, and with chunks when it has that callback. A
-- request that is not refused needs a host, since an assertion or a NULL pointer is met without it.
abbrev pub allowed : Libevent → Action → HttpClient → Bool
allowed libevent (done r) s = is_some s.req
allowed libevent (chunked chunk) s = is_some s.req && s.chunkmode
allowed libevent (request digits) s =
    if is_prepare s.state then has_host (libevent.uri_parse s.uri) else true
allowed libevent (request_with digits method uri param timeout) s =
    if is_prepare s.state then has_host (libevent.uri_parse uri) else true
allowed libevent _ s = true

-- The number of requests, of their connections that were freed, and of the answers to the handler.
abbrev pub requests_of : Call → ℕ
requests_of (make_request con r post uri) = 1
requests_of _ = 0

abbrev pub frees_of : Call → ℕ
frees_of free_connection = 1
frees_of _ = 0

abbrev pub answers_of : Call → ℕ
answers_of (on_response code) = 1
answers_of (on_error code) = 1
answers_of _ = 0

abbrev pub total : (Call → ℕ) → List Call → ℕ
total f [] = 0
total f (c ∷ cs) = f c + total f cs

pub total-append : (f : Call → ℕ) (xs ys : List Call) → total f (xs ++ ys) ≡ total f xs + total f ys
total-append f [] ys = omega arith
total-append f (x ∷ xs) ys = omega (arith, total-append f xs ys)

abbrev pub requests : HttpClient → ℕ
requests s = total requests_of s.calls

abbrev pub answers : HttpClient → ℕ
answers s = total answers_of s.calls

abbrev pub frees : HttpClient → ℕ
frees s = total frees_of s.calls

-- Whether a request is open.
abbrev pub is_open : HttpClient → Bool
is_open s = not (is_prepare s.state)

abbrev pub number : Bool → ℕ
number true = 1
number false = 0

-- The handles that there are in each state, and the requests with their ends.
pub record Inv (s : HttpClient) : Type 0 where
  pub evcon : is_some s.evcon ≡ is_open s
  pub req : is_some s.req ≡ is_open s
  pub evuri : is_some s.evuri ≡ is_open s
  pub dnsbase : s.dnsbase ≡ is_open s
  pub responsebuffer : is_some s.responsebuffer ≡ (is_open s && s.chunkmode)
  pub freed : requests s ≡ frees s + number (is_open s)
  pub answered : answers s ≤ frees s

module _ (libevent : Libevent) where
  abbrev pub run : Action → M HttpClient (Unit {0})
  run (request digits) = Requesting.request libevent digits
  run (request_with digits method uri param timeout) =
      Requesting.request_with libevent digits method uri param timeout
  run cancel = Requesting.cancel quiet
  run (clean_up delete_req_flag) = Http.clean_up delete_req_flag
  run (done r) = Answering.http_done_cb quiet r
  run (chunked chunk) = Answering.http_chunked_cb quiet chunk

  -- The clients that these lead to.
  pub data Reachable : HttpClient → Type 0 where
    start :
        (method : MethodType) (uri : Bytes) (param : Option HttpParameter) (timeout : ℕ)
        → Reachable (Http.make method uri param timeout)
    step :
        (s : HttpClient) (a : Action)
        → allowed libevent a s ≡ true
        → Reachable s
        → Reachable (run a s).1
