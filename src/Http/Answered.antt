-- ===== src/Http/Answered.antt =====
-- What the callbacks and a cancellation leave of the invariant of Http/History.antt.
use mathlib.Core.Path.{subst}
use mathlib.Core.Bool.{false≢true}
use coconut.Base.{
  ℕ, ◌≡◌, refl, sym, ap, ◌∙◌, arith, Bool, true, false, ◌&&◌, [], ◌∷◌, ◌++◌, append_assoc, Option,
  none, some, bind-ok, ◌>>=◌, ◌==◌, length, ◌%◌, u32_mod, Bytes, ok, fault, resume, M, ◌>>◌, pure,
  inl, inr, Bool-cases,
}
use coconut.Http
use coconut.Http.{
  HttpClient, HttpConnection, HttpRequest, HttpParameter, Libevent, MethodType, Call, make_request,
  free_connection, on_response, on_error, is_prepare, is_some, prepare, requesting,
  receiving_response, RequestState, Uri, is_post, is_requesting, connection_timeout, response_error,
}
use coconut.Http.Answering
use coconut.Http.Answering.{Response}
use coconut.Http.Requesting
use coconut.Http.Requesting.{EventHandler, port_of}
use coconut.Http.History.{
  quiet, requests_of, frees_of, answers_of, total-append, is_open, number, Inv,
}
use coconut.Http.Cleaning.{closed, freed_calls, clean_up_lem, both, answered-Inv, fire_error_lem}

-- What follows when the response has been taken over.
abbrev pub ends : M HttpClient (Unit {0})
ends =
    Http.clean_up false
    >> (Http.gets (λ s. s.response_code) >>= λ code. Http.log (on_response code) >> pure tt)

pub ends_lem :
    (s : HttpClient)
    → Inv s
    → ends s ≡ (ok tt, closed (freed_calls s ++ on_response s.response_code ∷ []) s)
ends_lem s i =
    bind-ok (Http.clean_up false)
      (λ _. Http.gets (λ s'. s'.response_code) >>= λ code. Http.log (on_response code) >> pure tt)
      (clean_up_lem false s i)
    ∙ ap (λ l. (ok tt, record (closed [] s) { calls = l }))
        (append_assoc s.calls (freed_calls s) (on_response s.response_code ∷ []))

ends-Inv : (s : HttpClient) → Inv s → is_open s ≡ true → Inv (ends s).1
ends-Inv s i h =
    subst (λ o. Inv o.1) (sym (ends_lem s i))
      (answered-Inv (on_response s.response_code) false s i h refl (omega arith))

-- The body that a response is given.
abbrev pub body_of : Bool → Option Bytes → Bytes → Bytes
body_of true (some buffer) input = buffer
body_of true none input = input
body_of false buffer input = input

-- The client when a response has been taken over.
abbrev pub taken : Bool → Response → HttpClient → HttpClient
taken true r s = record s {
  input_headers = Answering.insert_all r.input_headers s.input_headers;
  response_body = body_of s.chunkmode s.responsebuffer r.input_buffer;
}
taken false r s = s

taken_lem :
    (b k : Bool) (buffer : Option Bytes) (r : Response) (s : HttpClient)
    → is_some buffer ≡ k
    → let s' : HttpClient = record s { chunkmode = k; responsebuffer = buffer } in
      Http.when b (do Answering.make_result_headers r; Answering.make_result_body r) s'
      ≡ (ok tt, taken b r s')
unfolding Answering.make_result_headers Answering.make_result_body
taken_lem true true (some buffer) r s h = refl
taken_lem true true none r s h = absurd (false≢true h)
taken_lem true false buffer r s h = refl
taken_lem false k buffer r s h = refl

pub taken-Inv :
    (b : Bool) (r : Response) (code : ℕ) (s : HttpClient)
    → Inv s
    → Inv (taken b r (record s { response_code = code }))
taken-Inv true r code s i = record {
  evcon = i.evcon;
  req = i.req;
  evuri = i.evuri;
  dnsbase = i.dnsbase;
  responsebuffer = i.responsebuffer;
  freed = i.freed;
  answered = i.answered;
}
taken-Inv false r code s i = record {
  evcon = i.evcon;
  req = i.req;
  evuri = i.evuri;
  dnsbase = i.dnsbase;
  responsebuffer = i.responsebuffer;
  freed = i.freed;
  answered = i.answered;
}

pub taken-open :
    (b : Bool) (r : Response) (code : ℕ) (s : HttpClient)
    → is_open (taken b r (record s { response_code = code })) ≡ is_open s
taken-open true r code s = refl
taken-open false r code s = refl

pub some-of {ℓ} : {A : Type ℓ} (o : Option A) → is_some o ≡ true → (a : A) × (o ≡ some a)
some-of none h = absurd (false≢true h)
some-of (some a) h = (a, refl)

pub the_lem :
    {A : Type 0} (f : HttpClient → Option A) (a : A) (s : HttpClient)
    → f s ≡ some a
    → Http.the f s ≡ (ok a, s)
the_lem f a s h = ap (λ o. elim o [ none ↦ (fault, s) | some x ↦ (ok x, s) ]) h

pub fire_response_lem :
    (r : Response) (s : HttpClient)
    → Inv s
    → is_open s ≡ true
    → Answering.fire_response quiet r s
      ≡ ends (taken (r.response_code == 200) r (record s { response_code = r.response_code }))
unfolding Answering.fire_response
fire_response_lem r s i h =
    let (q, e) = some-of s.req (i.req ∙ h) in
    let b = r.response_code == 200 in
    let take_over =
      Http.when b (do Answering.make_result_headers r; Answering.make_result_body r) in
    let k : is_some s.responsebuffer ≡ s.chunkmode =
      i.responsebuffer ∙ ap (λ x. x && s.chunkmode) h in
    bind-ok (Http.the (λ s'. s'.req))
      (λ _.
        Http.modify (λ s'. record s' { response_code = r.response_code }) >> (take_over >> ends))
      (the_lem (λ s'. s'.req) q s e)
    ∙ bind-ok take_over (λ _. ends)
        (taken_lem b s.chunkmode s.responsebuffer r (record s { response_code = r.response_code })
          k)

pub fire_response-Inv :
    (r : Response) (s : HttpClient)
    → Inv s
    → is_open s ≡ true
    → Inv (Answering.fire_response quiet r s).1
fire_response-Inv r s i h =
    let b = r.response_code == 200 in
    subst (λ o. Inv o.1) (sym (fire_response_lem r s i h))
      (ends-Inv (taken b r (record s { response_code = r.response_code }))
        (taken-Inv b r r.response_code s i) (taken-open b r r.response_code s ∙ h))

-- The client behind a chunk.
abbrev pub fed : Bytes → Bytes → HttpClient → HttpClient
fed buffer chunk s = record s {
  state = Http.receiving_response;
  responsebuffer = some (buffer ++ chunk);
  calls = s.calls ++ Http.on_received_chunked (length (buffer ++ chunk) % u32_mod) ∷ [];
}

pub chunked_lem :
    (chunk : Bytes) (s : HttpClient) (q : HttpRequest) (buffer : Bytes)
    → s.req ≡ some q
    → s.responsebuffer ≡ some buffer
    → Answering.http_chunked_cb quiet chunk s ≡ (ok tt, fed buffer chunk s)
unfolding Answering.http_chunked_cb
chunked_lem chunk s q buffer h k =
    let s' : HttpClient = record s { state = Http.receiving_response } in
    let reply = λ (x : Bytes).
      Http.modify (λ s''. record s'' { responsebuffer = some (x ++ chunk) })
      >> (Http.log (Http.on_received_chunked (length (x ++ chunk) % u32_mod)) >> pure tt) in
    bind-ok (Http.the (λ s''. s''.req)) (λ _. Http.the (λ s''. s''.responsebuffer) >>= reply)
      (the_lem (λ s''. s''.req) q s' h)
    ∙ bind-ok (Http.the (λ s''. s''.responsebuffer)) reply
        (the_lem (λ s''. s''.responsebuffer) buffer s' k)

pub chunked-Inv :
    (chunk : Bytes) (s : HttpClient)
    → Inv s
    → is_open s ≡ true
    → s.chunkmode ≡ true
    → Inv (Answering.http_chunked_cb quiet chunk s).1
chunked-Inv chunk s i h k =
    let (q, e) = some-of s.req (i.req ∙ h) in
    let (buffer, f) =
      some-of s.responsebuffer (i.responsebuffer ∙ both (is_open s) s.chunkmode h k) in
    let n : number (is_open s) ≡ 1 = ap number h in
    let c = Http.on_received_chunked (length (buffer ++ chunk) % u32_mod) in
    subst (λ o. Inv o.1) (sym (chunked_lem chunk s q buffer e f))
      (record {
        evcon = i.evcon ∙ h;
        req = i.req ∙ h;
        evuri = i.evuri ∙ h;
        dnsbase = i.dnsbase ∙ h;
        responsebuffer = sym k;
        freed = omega (
          arith,
          i.freed,
          total-append requests_of s.calls (c ∷ []),
          total-append frees_of s.calls (c ∷ []),
        );
        answered = omega (
          arith,
          i.answered,
          total-append answers_of s.calls (c ∷ []),
          total-append frees_of s.calls (c ∷ []),
        );
      })

-- A cancellation of an open request.
pub logged-Inv :
    (s : HttpClient) → Inv s → Inv (record s { calls = s.calls ++ Http.cancel_request ∷ [] })
logged-Inv s i = record {
  evcon = i.evcon;
  req = i.req;
  evuri = i.evuri;
  dnsbase = i.dnsbase;
  responsebuffer = i.responsebuffer;
  freed = omega (
    arith,
    i.freed,
    total-append requests_of s.calls (Http.cancel_request ∷ []),
    total-append frees_of s.calls (Http.cancel_request ∷ []),
  );
  answered = omega (
    arith,
    i.answered,
    total-append answers_of s.calls (Http.cancel_request ∷ []),
    total-append frees_of s.calls (Http.cancel_request ∷ []),
  );
}

abbrev pub cancelled : HttpClient → HttpClient
cancelled s = record s { calls = s.calls ++ Http.cancel_request ∷ [] }

-- Cancelling an open request.
pub cancel_lem :
    (s : HttpClient)
    → Inv s
    → is_some s.req ≡ true
    → Requesting.cancel quiet s
      ≡ (ok tt, closed (freed_calls s ++ on_error Http.canceled ∷ []) (cancelled s))
unfolding Requesting.cancel
cancel_lem s i h =
    let prepared = Http.modify (λ (q : HttpClient). record q { state = prepare }) in
    ap
      (λ b.
        Http.when b
          (Http.log Http.cancel_request >> (Requesting.fire_error quiet Http.canceled >> prepared))
          s)
      h
    ∙ ap (resume (λ _. prepared)) (fire_error_lem Http.canceled (cancelled s) (logged-Inv s i))

pub cancel-Inv : (s : HttpClient) → Inv s → Inv (Requesting.cancel quiet s).1
unfolding Requesting.cancel
cancel-Inv s i = elim (Bool-cases (is_some s.req)) [
  | inl h ↦
      subst (λ o. Inv o.1) (sym (cancel_lem s i h))
        (answered-Inv (on_error Http.canceled) false (cancelled s) (logged-Inv s i) (sym i.req ∙ h)
          refl (omega arith))
  | inr h ↦
      subst
        (λ b.
          Inv
            (Http.when b
              (Http.log Http.cancel_request
                >> (Requesting.fire_error quiet Http.canceled
                    >> Http.modify (λ (q : HttpClient). record q { state = prepare })))
              s).1)
        (sym h) i
]
