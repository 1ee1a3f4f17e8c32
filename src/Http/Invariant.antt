-- ===== src/Http/Invariant.antt =====
-- The invariant of Http/History.antt holds in every state that a history leads to.
use mathlib.Core.Path.{subst}
use mathlib.Core.Bool.{false≢true}
use coconut.Base.{
  ℕ, ◌≡◌, refl, sym, ap, ◌∙◌, arith, Bool, true, false, not, ◌&&◌, [], ◌∷◌, Option, none, some,
  Bytes, if◌then◌else◌, throws, illegal_state, throw_if, resume, ◌>>◌, inl, inr, Bool-cases,
  and_true,
}
use coconut.Http
use coconut.Http.{
  HttpClient, HttpConnection, HttpRequest, HttpParameter, Libevent, MethodType, Call, make_request,
  free_connection, on_response, on_error, is_prepare, is_some, prepare, requesting,
  receiving_response, RequestState, Uri, is_post, is_requesting, connection_timeout, response_error,
}
use coconut.Http.Answering
use coconut.Http.Answering.{Response}
use coconut.Http.Body.{
  made, boundary_of, accepted, headers, body, request_uri, uri_of, all_parameters,
}
use coconut.Http.Made.{request_lem}
use coconut.Http.Requesting
use coconut.Http.Requesting.{EventHandler, port_of}
use coconut.Http.History.{
  Action, request, request_with, cancel, clean_up, done, chunked, allowed, has_host, requests_of,
  frees_of, answers_of, total-append, is_open, number, Inv, run, Reachable, start, step,
}
use coconut.Http.Cleaning.{clean_up-Inv, fire_error-Inv}
use coconut.Http.Answered.{some-of, fire_response-Inv, chunked-Inv, cancel-Inv}

module _ (libevent : Libevent) where
  pub start-Inv :
      (method : MethodType) (uri : Bytes) (param : Option HttpParameter) (timeout : ℕ)
      → Inv (Http.make method uri param timeout)
  start-Inv method uri param timeout = record {
    evcon = refl;
    req = refl;
    evuri = refl;
    dnsbase = refl;
    responsebuffer = refl;
    freed = refl;
    answered = omega arith;
  }

  pub made-Inv :
      (digits host path : Bytes) (port : Option ℕ) (ps : HttpParameter) (s : HttpClient)
      → Inv s
      → is_prepare s.state ≡ true
      → Inv (made libevent digits host path port ps s)
  made-Inv digits host path port ps s i h =
      let con : HttpConnection = record {
        dnsbase = s.dnsbase;
        host = host;
        port = port_of port;
        timeout = s.timeout;
      } in
      let b = boundary_of libevent s.method digits s.boundary in
      let r : HttpRequest = record {
        output_headers = accepted libevent (headers libevent s.method s.multipart b ps host);
        output_buffer = body libevent s.method s.multipart b ps;
      } in
      let c = make_request con r (is_post s.method) (request_uri libevent s.method path ps) in
      let n : number (is_open s) ≡ 0 = ap (λ x. number (not x)) h in
      let k : is_some s.responsebuffer ≡ false =
        i.responsebuffer ∙ ap (λ x. not x && s.chunkmode) h in
      record {
        evcon = refl;
        req = refl;
        evuri = refl;
        dnsbase = refl;
        responsebuffer = buffered s.chunkmode s.responsebuffer k;
        freed = omega (
          arith,
          i.freed,
          total-append requests_of s.calls (c ∷ []),
          total-append frees_of s.calls (c ∷ []),
        );
        answered = omega (
          arith,
          i.answered,
          total-append answers_of s.calls (c ∷ []),
          total-append frees_of s.calls (c ∷ []),
        );
      }
    where
      buffered :
          (k : Bool) (o : Option Bytes) → is_some o ≡ false → is_some (if k then some [] else o) ≡ k
      buffered true o h = refl
      buffered false o h = h

  pub state-prepare : (x : RequestState) → is_prepare x ≡ true → x ≡ prepare
  state-prepare prepare h = refl
  state-prepare requesting h = absurd (false≢true h)
  state-prepare receiving_response h = absurd (false≢true h)

  -- A request is refused when one is open, and the client stays as it is.
  pub request-refused :
      (digits : Bytes) (s : HttpClient)
      → is_prepare s.state ≡ false
      → Requesting.request libevent digits s ≡ (throws illegal_state, s)
  unfolding Requesting.request
  request-refused digits s h =
      ap
        (λ b.
          resume (λ _. Requesting.request_internal libevent digits)
            (throw_if (not b) illegal_state s))
        h

  pub request_with_lem :
      (digits : Bytes) (method : MethodType) (uri : Bytes) (param : Option HttpParameter)
      (timeout : ℕ) (s : HttpClient)
      → is_prepare s.state ≡ true
      → Requesting.request_with libevent digits method uri param timeout s
        ≡ Requesting.request libevent digits
            (record s { uri = uri; method = method; param_temp = param; timeout = timeout })
  unfolding Requesting.request Requesting.request_with
  request_with_lem digits method uri param timeout s h =
      let s' : HttpClient = record s {
        uri = uri;
        method = method;
        param_temp = param;
        timeout = timeout;
      } in
      let internal = Requesting.request_internal libevent digits in
      ap
        (λ b.
          resume
            (λ _.
              Http.modify (λ (q : HttpClient). record q {
                uri = uri;
                method = method;
                param_temp = param;
                timeout = timeout;
              })
              >> internal)
            (throw_if (not b) illegal_state s))
        h
      ∙ sym (ap (λ b. resume (λ _. internal) (throw_if (not b) illegal_state s')) h)

  request_with-refused :
      (digits : Bytes) (method : MethodType) (uri : Bytes) (param : Option HttpParameter)
      (timeout : ℕ) (s : HttpClient)
      → is_prepare s.state ≡ false
      → Requesting.request_with libevent digits method uri param timeout s
        ≡ (throws illegal_state, s)
  unfolding Requesting.request_with
  request_with-refused digits method uri param timeout s h =
      ap
        (λ b.
          resume
            (λ _.
              Http.modify (λ (q : HttpClient). record q {
                uri = uri;
                method = method;
                param_temp = param;
                timeout = timeout;
              })
              >> Requesting.request_internal libevent digits)
            (throw_if (not b) illegal_state s))
        h

  pub host-found :
      (o : Option Uri)
      → has_host o ≡ true
      → (host : Bytes) × (path : Bytes) × (port : Option ℕ) × (o
          ≡ some (uri_of libevent host path port))
  host-found none h = absurd (false≢true h)
  host-found (some u) h =
      let (host, e) = some-of u.host h in
      (host, u.path, u.port, ap (λ x. some (record u { host = x })) e)

  pub request-Inv :
      (digits : Bytes) (s : HttpClient)
      → Inv s
      → allowed libevent (request digits) s ≡ true
      → Inv (Requesting.request libevent digits s).1
  request-Inv digits s i a = elim (Bool-cases (is_prepare s.state)) [
    | inl h ↦
        let (host, path, port, e) =
          host-found (libevent.uri_parse s.uri)
            (sym (ap (λ b. if b then has_host (libevent.uri_parse s.uri) else true) h) ∙ a) in
        subst (λ o. Inv o.1)
          (sym (request_lem libevent digits host path port s (state-prepare s.state h) e))
          (made-Inv digits host path port (all_parameters libevent s) s i h)
    | inr h ↦ subst (λ o. Inv o.1) (sym (request-refused digits s h)) i
  ]

  pub request_with-Inv :
      (digits : Bytes) (method : MethodType) (uri : Bytes) (param : Option HttpParameter)
      (timeout : ℕ) (s : HttpClient)
      → Inv s
      → allowed libevent (request_with digits method uri param timeout) s ≡ true
      → Inv (Requesting.request_with libevent digits method uri param timeout s).1
  request_with-Inv digits method uri param timeout s i a = elim (Bool-cases (is_prepare s.state)) [
    | inl h ↦
        subst (λ o. Inv o.1) (sym (request_with_lem digits method uri param timeout s h))
          (request-Inv digits
            (record s { uri = uri; method = method; param_temp = param; timeout = timeout })
            (record {
              evcon = i.evcon;
              req = i.req;
              evuri = i.evuri;
              dnsbase = i.dnsbase;
              responsebuffer = i.responsebuffer;
              freed = i.freed;
              answered = i.answered;
            })
            a)
    | inr h ↦
        subst (λ o. Inv o.1) (sym (request_with-refused digits method uri param timeout s h)) i
  ]

  keeps :
      (a : Action) (s : HttpClient) → allowed libevent a s ≡ true → Inv s → Inv (run libevent a s).1
  unfolding Answering.http_done_cb Answering.fire_failed
  keeps (request digits) s h i = request-Inv digits s i h
  keeps (request_with digits method uri param timeout) s h i =
      request_with-Inv digits method uri param timeout s i h
  keeps cancel s h i = cancel-Inv s i
  keeps (clean_up b) s h i = clean_up-Inv b s i
  keeps (done none) s h i =
      fire_error-Inv
        (if is_requesting s.state
          then (if s.chunkmode then connection_timeout else response_error)
          else response_error)
        s i (sym i.req ∙ h)
  keeps (done (some r)) s h i = fire_response-Inv r s i (sym i.req ∙ h)
  keeps (chunked chunk) s h i =
      let (q, k) = and_true (is_some s.req) s.chunkmode h in chunked-Inv chunk s i (sym i.req ∙ q) k

  -- In every state that requests, cancellations, cleaning up and the callbacks of libevent lead to,
  -- where the event handler calls nothing while a request is cancelled, and what it calls in a callback
  -- of libevent is the next action, a client that is not in `Prepare` has its connection, its request, its URI, its DNS base and, in
  -- the chunk mode, its response buffer, and in `Prepare` it has none of them; every request's
  -- connection but that of the open one has been freed, and the handler has been given at most one
  -- response or error for each request that has ended. A request that is not refused is for a URI
  -- that libevent finds a host in, libevent calls back while there is a request, and
  -- evhttp_make_request does not fail. A handler that makes a request while one is cancelled is not
  -- among these histories.
  pub requests-Reachable : (s : HttpClient) → Reachable libevent s → Inv s
  requests-Reachable _ (start method uri param timeout) = start-Inv method uri param timeout
  requests-Reachable _ (step s a h r) = keeps a s h (requests-Reachable s r)
