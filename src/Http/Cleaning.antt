-- ===== src/Http/Cleaning.antt =====
-- How a client of Http.antt is cleaned up, and what its handler is then told.
use mathlib.Core.Path.{subst}
use mathlib.Core.Bool.{false≢true}
use coconut.Base.{
  ◌+◌, ◌≤◌, ◌≡◌, refl, sym, ap, ◌∙◌, arith, Bool, true, false, ◌&&◌, List, [], ◌∷◌, ◌++◌,
  append-nil, append_assoc, Option, none, some, bind-ok, Bytes, if◌then◌else◌, ok, ◌>>◌, pure,
}
use coconut.Http
use coconut.Http.{
  HttpClient, HttpConnection, HttpRequest, HttpParameter, Libevent, MethodType, Call, make_request,
  free_connection, on_response, on_error, is_prepare, is_some, prepare, requesting,
  receiving_response, RequestState, Uri, is_post, is_requesting, connection_timeout, response_error,
}
use coconut.Http.Requesting
use coconut.Http.Requesting.{EventHandler, port_of}
use coconut.Http.History.{
  quiet, requests_of, frees_of, answers_of, total, total-append, requests, answers, frees, is_open,
  number, Inv,
}

-- A client that has been cleaned up.
abbrev pub closed : List Call → HttpClient → HttpClient
closed calls s = record s {
  state = prepare;
  evcon = none;
  req = none;
  evuri = none;
  dnsbase = false;
  responsebuffer = none;
  calls = s.calls ++ calls;
}

abbrev pub freed_by : Bool → Bool → List Call
freed_by true chunkmode =
    free_connection
    ∷ Http.free_uri
    ∷ Http.free_dnsbase
    ∷ (if chunkmode then Http.free_buffer ∷ [] else [])
freed_by false chunkmode = []

abbrev pub freed_calls : HttpClient → List Call
freed_calls s = freed_by (is_open s) s.chunkmode

abbrev with_handles :
    Option HttpConnection
    → Option HttpRequest
    → Option Uri
    → Bool
    → Option Bytes
    → HttpClient
    → HttpClient
with_handles con r u dns buffer s = record s {
  evcon = con;
  req = r;
  evuri = u;
  dnsbase = dns;
  responsebuffer = buffer;
}

three :
    (x y : List Call)
    → ((x ++ free_connection ∷ []) ++ Http.free_uri ∷ []) ++ y
      ≡ x ++ free_connection ∷ Http.free_uri ∷ y
three x y =
    append_assoc (x ++ free_connection ∷ []) (Http.free_uri ∷ []) y
    ∙ append_assoc x (free_connection ∷ []) (Http.free_uri ∷ y)

clean_up_handles :
    (b is_on chunkmode : Bool) (con : Option HttpConnection) (r : Option HttpRequest)
    (u : Option Uri) (dns : Bool) (buffer : Option Bytes) (s : HttpClient)
    → is_some con ≡ is_on
    → is_some r ≡ is_on
    → is_some u ≡ is_on
    → dns ≡ is_on
    → is_some buffer ≡ (is_on && chunkmode)
    → Http.clean_up b (with_handles con r u dns buffer s)
      ≡ (ok tt, closed (freed_by is_on chunkmode) s)
unfolding Http.clean_up
clean_up_handles b true k none r u dns buffer s c q v d f = absurd (false≢true c)
clean_up_handles b true k (some con) none u dns buffer s c q v d f = absurd (false≢true q)
clean_up_handles b true k (some con) (some r) none dns buffer s c q v d f = absurd (false≢true v)
clean_up_handles b true k (some con) (some r) (some u) false buffer s c q v d f =
    absurd (false≢true d)
clean_up_handles b true true (some con) (some r) (some u) true none s c q v d f =
    absurd (false≢true f)
clean_up_handles b true true (some con) (some r) (some u) true (some buffer) s c q v d f =
    ap (λ l. (ok tt, record (closed [] s) { calls = l }))
      (append_assoc ((s.calls ++ free_connection ∷ []) ++ Http.free_uri ∷ [])
          (Http.free_dnsbase ∷ []) (Http.free_buffer ∷ [])
        ∙ three s.calls (Http.free_dnsbase ∷ Http.free_buffer ∷ []))
clean_up_handles b true false (some con) (some r) (some u) true none s c q v d f =
    ap (λ l. (ok tt, record (closed [] s) { calls = l })) (three s.calls (Http.free_dnsbase ∷ []))
clean_up_handles b true false (some con) (some r) (some u) true (some buffer) s c q v d f =
    absurd (false≢true (sym f))
clean_up_handles b false k (some con) r u dns buffer s c q v d f = absurd (false≢true (sym c))
clean_up_handles b false k none (some r) u dns buffer s c q v d f = absurd (false≢true (sym q))
clean_up_handles b false k none none (some u) dns buffer s c q v d f = absurd (false≢true (sym v))
clean_up_handles b false k none none none true buffer s c q v d f = absurd (false≢true (sym d))
clean_up_handles b false k none none none false (some buffer) s c q v d f =
    absurd (false≢true (sym f))
clean_up_handles b false k none none none false none s c q v d f =
    ap (λ l. (ok tt, record (closed [] s) { calls = l })) (sym (append-nil s.calls))

pub clean_up_lem :
    (b : Bool) (s : HttpClient) → Inv s → Http.clean_up b s ≡ (ok tt, closed (freed_calls s) s)
clean_up_lem b s i =
    clean_up_handles b (is_open s) s.chunkmode s.evcon s.req s.evuri s.dnsbase s.responsebuffer s
      i.evcon i.req i.evuri i.dnsbase i.responsebuffer

pub both : (a b : Bool) → a ≡ true → b ≡ true → (a && b) ≡ true
both true true h k = refl
both true false h k = k
both false b h k = h

pub closed-Inv :
    (calls : List Call) (s : HttpClient)
    → requests s + total requests_of calls ≡ frees s + total frees_of calls
    → answers s + total answers_of calls ≤ frees s + total frees_of calls
    → Inv (closed calls s)
closed-Inv calls s n m = record {
  evcon = refl;
  req = refl;
  evuri = refl;
  dnsbase = refl;
  responsebuffer = refl;
  freed =
      omega (arith, n, total-append requests_of s.calls calls, total-append frees_of s.calls calls);
  answered =
      omega (arith, m, total-append answers_of s.calls calls, total-append frees_of s.calls calls);
}

-- What cleaning up frees.
pub freed_by_lem :
    (is_on chunkmode : Bool)
    → (total requests_of (freed_by is_on chunkmode) ≡ 0)
      × (total answers_of (freed_by is_on chunkmode) ≡ 0)
      × (total frees_of (freed_by is_on chunkmode) ≡ number is_on)
freed_by_lem true true = (refl, refl, refl)
freed_by_lem true false = (refl, refl, refl)
freed_by_lem false chunkmode = (refl, refl, refl)

pub clean_up-Inv : (b : Bool) (s : HttpClient) → Inv s → Inv (Http.clean_up b s).1
clean_up-Inv b s i =
    let (x, y, z) = freed_by_lem (is_open s) s.chunkmode in
    subst Inv (ap (λ o. o.1) (sym (clean_up_lem b s i)))
      (closed-Inv (freed_calls s) s (omega (arith, i.freed)) (omega (arith, i.answered)))

-- A call is logged behind cleaning up.
pub answered-Inv :
    (c : Call) (b : Bool) (s : HttpClient)
    → Inv s
    → is_open s ≡ true
    → requests_of c + frees_of c ≡ 0
    → answers_of c ≤ 1
    → Inv (closed (freed_calls s ++ c ∷ []) s)
answered-Inv c b s i h none_made once =
    let (x, y, z) = freed_by_lem (is_open s) s.chunkmode in
    let n : number (is_open s) ≡ 1 = ap number h in
    let rs = total-append requests_of (freed_calls s) (c ∷ []) in
    let as_ = total-append answers_of (freed_calls s) (c ∷ []) in
    let fs = total-append frees_of (freed_calls s) (c ∷ []) in
    closed-Inv (freed_calls s ++ c ∷ []) s (omega (arith, i.freed)) (omega (arith, i.answered))

pub fire_error_lem :
    (code : Http.ErrorCode) (s : HttpClient)
    → Inv s
    → Requesting.fire_error quiet code s ≡ (ok tt, closed (freed_calls s ++ on_error code ∷ []) s)
unfolding Requesting.fire_error
fire_error_lem code s i =
    bind-ok (Http.clean_up false) (λ _. Http.log (on_error code) >> pure tt)
      (clean_up_lem false s i)
    ∙ ap (λ l. (ok tt, record (closed [] s) { calls = l }))
        (append_assoc s.calls (freed_calls s) (on_error code ∷ []))

pub fire_error-Inv :
    (code : Http.ErrorCode) (s : HttpClient)
    → Inv s
    → is_open s ≡ true
    → Inv (Requesting.fire_error quiet code s).1
fire_error-Inv code s i h =
    subst (λ o. Inv o.1) (sym (fire_error_lem code s i))
      (answered-Inv (on_error code) false s i h refl (omega arith))
