-- ===== src/Http/Chunked.antt =====
-- A response of Http.antt that comes in chunks.
use coconut.Base.{
  ℕ, ◌≡◌, refl, sym, ap, ◌∙◌, arith, Bool, true, ◌==◌, List, [], ◌∷◌, ◌++◌, append_assoc,
  append-nil, Option, some, Bytes, ok, M, ◌>>◌, pure, bind-ok, if◌then◌else◌,
}
use mathlib.Core.Path.{subst}
use coconut.Http.Answered.{
  ends_lem, body_of, fed, chunked_lem, chunked-Inv, fire_response_lem, taken, taken-Inv, some-of,
  ends,
}
use coconut.Http.Answering
use coconut.Http.Answering.{Response}
use coconut.Http.Body.{all_parameters, made, uri_of}
use coconut.Http.Made.{request_lem}
use coconut.Http.History.{quiet, is_open, Inv}
use coconut.Http.Invariant.{made-Inv}
use coconut.Http.Query.{concat}
use coconut.Http.Requesting
use coconut.Http.{HttpClient, Libevent, prepare, is_prepare}

-- The calls of the chunked callback for these chunks.
abbrev pub feed : List Bytes → M HttpClient (Unit {0})
feed [] = pure tt
feed (c ∷ cs) = Answering.http_chunked_cb quiet c >> feed cs

-- An open request, whose response buffer holds these bytes.
pub record Receiving (s : HttpClient) (bytes : Bytes) : Type 0 where
  pub inv : Inv s
  pub on : is_open s ≡ true
  pub chunkmode : s.chunkmode ≡ true
  pub buffer : s.responsebuffer ≡ some bytes

feed_lem :
    (cs : List Bytes) (bytes : Bytes) (s : HttpClient)
    → Receiving s bytes
    → ((feed cs s).0 ≡ ok tt) × Receiving (feed cs s).1 (bytes ++ concat cs)
feed_lem [] bytes s h = (
  refl,
  record {
    inv = h.inv;
    on = h.on;
    chunkmode = h.chunkmode;
    buffer = h.buffer ∙ rw append-nil refl;
  },
)
feed_lem (c ∷ cs) bytes s h =
    let (q, e) = some-of s.req (h.inv.req ∙ h.on) in
    let next = chunked_lem c s q bytes e h.buffer in
    let h' : Receiving (fed bytes c s) (bytes ++ c) = record {
      inv = subst Inv (ap (λ o. o.1) next) (chunked-Inv c s h.inv h.on h.chunkmode);
      on = refl;
      chunkmode = h.chunkmode;
      buffer = refl;
    } in
    subst (λ o. (o.0 ≡ ok tt) × Receiving o.1 (bytes ++ (c ++ concat cs)))
      (sym (bind-ok (Answering.http_chunked_cb quiet c) (λ _. feed cs) next))
      (subst (λ x. ((feed cs (fed bytes c s)).0 ≡ ok tt) × Receiving (feed cs (fed bytes c s)).1 x)
        (append_assoc bytes c (concat cs)) (feed_lem cs (bytes ++ c) (fed bytes c s) h'))

-- What the client has of a response with the status 200.
done_lem :
    (r : Response) (bytes : Bytes) (s : HttpClient)
    → Receiving s bytes
    → r.response_code ≡ 200
    → let s' = (Answering.http_done_cb quiet (some r) s).1 in
      ((Answering.http_done_cb quiet (some r) s).0 ≡ ok tt)
      × (s'.response_body ≡ bytes)
      × (s'.response_code ≡ 200)
      × (s'.state ≡ prepare)
unfolding Answering.http_done_cb
done_lem r bytes s h good =
    let s1 = taken true r (record s { response_code = r.response_code }) in
    let test : (r.response_code == 200) ≡ true = ground (arith, good) in
    let i : Inv s1 = taken-Inv true r r.response_code s h.inv in
    let e =
      fire_response_lem r s h.inv h.on
      ∙ ap (λ b. ends (taken b r (record s { response_code = r.response_code }))) test
      ∙ ends_lem s1 i in
    let body : s1.response_body ≡ bytes =
      ap (λ k. body_of k s.responsebuffer r.input_buffer) h.chunkmode
      ∙ ap (λ o. body_of true o r.input_buffer) h.buffer in
    (
      ap (λ o. o.0) e,
      ap (λ o. o.1.response_body) e ∙ body,
      ap (λ o. o.1.response_code) e ∙ good,
      ap (λ o. o.1.state) e,
    )

made-Receiving :
    (libevent : Libevent) (digits host path : Bytes) (port : Option ℕ) (s : HttpClient)
    → Inv s
    → s.state ≡ prepare
    → s.chunkmode ≡ true
    → Receiving (made libevent digits host path port (all_parameters libevent s) s) []
made-Receiving libevent digits host path port s i ready k = record {
  inv =
      made-Inv libevent digits host path port (all_parameters libevent s) s i (ap is_prepare ready);
  on = refl;
  chunkmode = k;
  buffer = ap (λ (b : Bool). if b then some [] else s.responsebuffer) k;
}

-- A client in `Prepare`, in the chunk mode, makes a request for a URI that libevent finds a host in;
-- then chunks come in, any number of them, and a response with the status 200. The calls return,
-- the body of the response is the chunks in their order, the status is 200, and the client is in
-- `Prepare` again. The handler calls nothing.
pub request-chunks :
    (libevent : Libevent) (digits host path : Bytes) (port : Option ℕ) (cs : List Bytes)
    (r : Response) (s : HttpClient)
    → Inv s
    → s.state ≡ prepare
    → s.chunkmode ≡ true
    → libevent.uri_parse s.uri ≡ some (uri_of libevent host path port)
    → r.response_code ≡ 200
    → let (x1, s1) = Requesting.request libevent digits s in
      let (x2, s2) = feed cs s1 in
      let (x3, s3) = Answering.http_done_cb quiet (some r) s2 in
      (x1 ≡ ok tt)
      × (x2 ≡ ok tt)
      × (x3 ≡ ok tt)
      × (s3.response_body ≡ concat cs)
      × (s3.response_code ≡ 200)
      × (s3.state ≡ prepare)
request-chunks libevent digits host path port cs r s i ready k parsed good =
    let e = request_lem libevent digits host path port s ready parsed in
    let m = made libevent digits host path port (all_parameters libevent s) s in
    let (x2, got) = feed_lem cs [] m (made-Receiving libevent digits host path port s i ready k) in
    let (x3, body, code, state) = done_lem r (concat cs) (feed cs m).1 got good in
    let last = λ (q : HttpClient). Answering.http_done_cb quiet (some r) (feed cs q).1 in
    (
      ap (λ o. o.0) e,
      ap (λ o. (feed cs o.1).0) e ∙ x2,
      ap (λ o. (last o.1).0) e ∙ x3,
      ap (λ o. (last o.1).1.response_body) e ∙ body,
      ap (λ o. (last o.1).1.response_code) e ∙ code,
      ap (λ o. (last o.1).1.state) e ∙ state,
    )
