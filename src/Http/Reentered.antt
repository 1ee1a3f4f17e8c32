-- ===== src/Http/Reentered.antt =====
-- A handler of Http.antt that makes a new request when it is told of a cancellation.
use coconut.Base.{
  ◌≡◌, refl, ap, ◌∙◌, true, false, [], ◌∷◌, ◌++◌, Option, some, Bytes, ok, ◌>>◌, pure, bind-ok,
  resume,
}
use coconut.Http
use coconut.Http.Answered.{cancelled, logged-Inv}
use coconut.Http.Body.{all_parameters, made, uri_of}
use coconut.Http.Made.{request_lem}
use coconut.Http.Cleaning.{clean_up_lem, closed, freed_calls}
use coconut.Http.History.{is_open, Inv}
use coconut.Http.Requesting
use coconut.Http.Requesting.{EventHandler}
use coconut.Http.{HttpClient, Libevent, prepare, requesting, is_some, on_error, canceled}

module _ (libevent : Libevent) (digits : Bytes) where
  abbrev pub again : EventHandler
  again = record {
    response = λ code. pure tt;
    received_chunked = λ size. pure tt;
    error = λ code. Requesting.request libevent digits;
  }

  -- The client as the handler finds it.
  abbrev told : HttpClient → HttpClient
  told s = record (closed (freed_calls s) s) {
    calls = (s.calls ++ freed_calls s) ++ on_error canceled ∷ [];
  }

  told_lem :
      (s : HttpClient)
      → Inv s
      → Requesting.fire_error again canceled s ≡ Requesting.request libevent digits (told s)
  unfolding Requesting.fire_error
  told_lem s i =
      bind-ok (Http.clean_up false)
        (λ _. Http.log (on_error canceled) >> Requesting.request libevent digits)
        (clean_up_lem false s i)

  -- An open request is cancelled, and the handler, told of the cancellation, makes a request for a
  -- URI that libevent finds a host in. Both calls return, and the client is in `Prepare` with the new
  -- request open: its next `request` is not refused, although there is a request that has neither
  -- been answered nor been cancelled.
  pub cancel-request :
      (host path : Bytes) (port : Option _) (s : HttpClient)
      → Inv s
      → is_open s ≡ true
      → libevent.uri_parse s.uri ≡ some (uri_of libevent host path port)
      → let (x, s') = Requesting.cancel again s in
        (x ≡ ok tt)
        × (s'.state ≡ prepare)
        × (is_some s'.req ≡ true)
        × ((Requesting.request libevent digits s').0 ≡ ok tt)
  unfolding Requesting.cancel
  cancel-request host path port s i h parsed =
      let s1 = cancelled s in
      let s2 = told s1 in
      let prepared = Http.modify (λ (q : HttpClient). record q { state = prepare }) in
      let m = made libevent digits host path port (all_parameters libevent s2) s2 in
      let s3 : HttpClient = record m { state = prepare } in
      let e : Requesting.cancel again s ≡ (ok tt, s3) =
        ap
          (λ b.
            Http.when b
              (Http.log Http.cancel_request >> (Requesting.fire_error again canceled >> prepared))
              s)
          (i.req ∙ h)
        ∙ ap (resume (λ _. prepared)) (
            told_lem s1 (logged-Inv s i)
            ∙ request_lem libevent digits host path port s2 refl parsed) in
      (
        ap (λ o. o.0) e,
        ap (λ o. o.1.state) e,
        ap (λ o. is_some o.1.req) e,
        ap (λ o. (Requesting.request libevent digits o.1).0) e
            ∙ ap (λ o. o.0) (request_lem libevent digits host path port s3 refl parsed),
      )
