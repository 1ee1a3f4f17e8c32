-- ===== src/Http/Made.antt =====
-- What `request` of Http/Requesting.antt leaves, when the URI has a host.
use coconut.Base.{
  ℕ, ◌≡◌, refl, ap, ◌∙◌, Bool, true, false, [], ◌∷◌, ◌++◌, append_assoc, Option, some, Bytes,
  if◌then◌else◌, ok, ◌>>=◌, ◌>>◌, pure, bind-ok, resume,
}
use coconut.Http
use coconut.Http.{
  Parameter, ParameterType, header_type, file_type, string_type, HttpParameter, Libevent,
  HttpClient, HttpRequest, HttpConnection, MethodType, http_post, http_get, http_unknown, prepare,
  requesting, is_post, is_get, make_request, Uri,
}
use coconut.Http.Content
use coconut.Http.Content.{c_str, get_name_of_path, make_get_method_body}
use coconut.Http.Requesting
use coconut.Http.Requesting.{add_arguments, chosen, port_of}
use coconut.Http.Body.{
  accepted, body, headers, request_uri, uri_of, boundary_of, made, all_parameters,
}
use coconut.Http.Building.{with, header_and_body_lem}

module _ (libevent : Libevent) where
  uri_text :
      (m : MethodType) (path : Bytes) (ps : HttpParameter)
      → (if is_get m then path ++ (63 ∷ []) ++ make_get_method_body libevent ps else path)
        ≡ request_uri libevent m path ps
  uri_text http_post path ps = refl
  uri_text http_unknown path ps = refl
  uri_text http_get path ps = append_assoc path (63 ∷ []) (make_get_method_body libevent ps)

  make_request_uri_lem :
      (u : Uri) (s : HttpClient)
      → s.evuri ≡ some u
      → Content.make_request_uri libevent s ≡ (ok (request_uri libevent s.method u.path s.param), s)
  unfolding Content.make_request_uri
  make_request_uri_lem u s h =
      rw h (ap (λ l. (ok l, record s { evuri = some u })) (uri_text s.method u.path s.param))

  buffer_lem :
      (b : Bool) (s : HttpClient)
      → Http.when b (λ s'. (ok tt, record s' { responsebuffer = some [] })) s
        ≡ (ok tt, record s { responsebuffer = if b then some [] else s.responsebuffer })
  buffer_lem true s = refl
  buffer_lem false s = refl

  make_http_client_lem :
      (s : HttpClient)
      → Requesting.make_http_client libevent s ≡ (
        ok tt,
        record s {
          req = some (record { output_headers = []; output_buffer = [] });
          responsebuffer = if s.chunkmode then some [] else s.responsebuffer;
        },
      )
  unfolding Requesting.make_http_client
  make_http_client_lem s =
      buffer_lem s.chunkmode
        (record s { req = some (record { output_headers = []; output_buffer = [] }) })

  make_uri_context_lem :
      (u : Uri) (s : HttpClient)
      → libevent.uri_parse s.uri ≡ some u
      → Requesting.make_uri_context libevent s ≡ (ok tt, record s { evuri = some u })
  unfolding Requesting.make_uri_context
  make_uri_context_lem u s parsed =
      ap
        (λ o.
          resume (λ _. pure tt) (Http.the (λ (q : HttpClient). q.evuri) (record s { evuri = o })))
        parsed

  -- `request` of a client in `Prepare`, for a URI that libevent finds a host in, returns, and leaves
  -- one request on the way to that host, at the URI's port or 80, with the timeout of the client.
  -- Its headers, of those that libevent accepts, are Host, the headers among the parameters, for a
  -- POST the Content-Type, and the Content-Length of the body. The body of a POST is the parts of the
  -- texts and of the files that can be opened, or the joined pairs without the multipart flag, and a
  -- GET has no body and the joined pairs behind the `?` of its URI. The parameters are the user's,
  -- or those of the last request, with the arguments of the URI behind them.
  pub request_lem :
      (digits host path : Bytes) (port : Option ℕ) (s : HttpClient)
      → s.state ≡ prepare
      → libevent.uri_parse s.uri ≡ some (uri_of libevent host path port)
      → Requesting.request libevent digits s
        ≡ (ok tt, made libevent digits host path port (all_parameters libevent s) s)
  unfolding Requesting.request Requesting.request_internal Requesting.parse_parameter
      Requesting.make_http_connection Requesting.start_request
  request_lem digits host path port s ready parsed =
      let u = uri_of libevent host path port in
      let s0 : HttpClient = record s {
        param = all_parameters libevent s;
        evuri = some u;
        state = prepare;
      } in
      let s1 : HttpClient = record s0 {
        responsebuffer = if s.chunkmode then some [] else s.responsebuffer;
      } in
      let b = boundary_of libevent s.method digits s.boundary in
      let r : HttpRequest = record {
        output_headers =
            accepted libevent
              (headers libevent s.method s.multipart b (all_parameters libevent s) host);
        output_buffer = body libevent s.method s.multipart b (all_parameters libevent s);
      } in
      let finish = λ (x : Bytes).
        Requesting.make_http_connection libevent >> Requesting.start_request libevent x in
      let last = Content.make_request_uri libevent >>= finish in
      let build = Content.make_header_and_body libevent digits in
      let client = Requesting.make_http_client libevent in
      rw ready (
        bind-ok (Requesting.make_uri_context libevent) (λ _. client >> (build >> last))
          (make_uri_context_lem u (record s { param = all_parameters libevent s; state = prepare })
            parsed)
        ∙ bind-ok client (λ _. build >> last) (make_http_client_lem s0)
        ∙ bind-ok build (λ _. last) (header_and_body_lem libevent digits host path port s1)
        ∙ bind-ok (Content.make_request_uri libevent) finish
            (make_request_uri_lem u (record (with libevent r s1) { boundary = b }) refl))
