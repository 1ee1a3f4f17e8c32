-- ===== src/Http/Building.antt =====
-- How the request of Http/Body.antt is built, step by step.
use coconut.Base.{
  ℕ, ◌%◌, ◌≡◌, refl, sym, ap, ◌∙◌, Bool, true, false, [], ◌∷◌, ◌++◌, append_assoc, append-nil,
  Option, none, some, Bytes, length, u32_mod, if◌then◌else◌, ok, ◌>>=◌, ◌>>◌, pure, bind-ok, Result,
  M, resume,
}
use coconut.Http
use coconut.Http.{
  Parameter, ParameterType, header_type, file_type, string_type, HttpParameter, Libevent,
  HttpClient, HttpRequest, HttpConnection, MethodType, http_post, http_get, http_unknown, prepare,
  requesting, is_post, is_get, make_request, Uri,
}
use coconut.Http.Content
use coconut.Http.Content.{c_str, get_name_of_path, make_get_method_body}
use coconut.Http.Texts.{
  host_key, content_length_key, content_type_key, form_urlencoded, multipart_form, name_head,
  string_tail, filename_head, file_tail, crlf, dashes,
}
use coconut.Http.Body.{
  Headers, accepted, user_header, user_headers, file_part, part_text, parts, body, content_type,
  headers, uri_of, boundary_of,
}

module _ (libevent : Libevent) where
  pub accepted-append :
      (xs ys : Headers)
      → accepted libevent (xs ++ ys) ≡ accepted libevent xs ++ accepted libevent ys
  accepted-append [] ys = refl
  accepted-append ((k, v) ∷ xs) ys =
      let rest = accepted-append xs ys in rw rest (go (libevent.accepts_header k v))
    where
      go :
          (b : Bool)
          → (if b
              then (k, v) ∷ (accepted libevent xs ++ accepted libevent ys)
              else accepted libevent xs ++ accepted libevent ys)
            ≡ (if b then (k, v) ∷ accepted libevent xs else accepted libevent xs)
              ++ accepted libevent ys
      go true = refl
      go false = refl

  -- A client with this request.
  abbrev pub with : HttpRequest → HttpClient → HttpClient
  with r s = record s { req = some r }

  -- A request with more headers, and with more of a body.
  abbrev pub heading : Headers → HttpRequest → HttpRequest
  heading hs r = record r { output_headers = r.output_headers ++ accepted libevent hs }

  pub heading-append :
      (hs hs' : Headers) (r : HttpRequest) → heading hs' (heading hs r) ≡ heading (hs ++ hs') r
  heading-append hs hs' r =
      ap (λ l. record r { output_headers = l })
        (append_assoc r.output_headers (accepted libevent hs) (accepted libevent hs')
          ∙ ap (λ l. r.output_headers ++ l) (sym (accepted-append hs hs')))

  pub heading-none : (r : HttpRequest) → heading [] r ≡ r
  heading-none r = ap (λ l. record r { output_headers = l }) (append-nil r.output_headers)

  -- A step that adds headers.
  abbrev pub Heads : M HttpClient (Unit {0}) → Headers → Type 0
  Heads m hs = (r : HttpRequest) (s : HttpClient) → m (with r s) ≡ (ok tt, with (heading hs r) s)

  pub pure-Heads : Heads (pure tt) []
  pure-Heads r s = ap (λ x. (ok tt, with x s)) (sym (heading-none r))

  pub next-Heads :
      (m k : M HttpClient (Unit {0})) (hs hs' : Headers)
      → Heads m hs
      → Heads k hs'
      → Heads (m >> k) (hs ++ hs')
  next-Heads m k hs hs' f g r s =
      bind-ok m (λ _. k) (f r s)
      ∙ g (heading hs r) s
      ∙ ap (λ x. (ok tt, with x s)) (heading-append hs hs' r)

  pub add_output_header-Heads :
      (k v : Bytes) → Heads (Content.add_output_header libevent k v) ((k, v) ∷ [])
  add_output_header-Heads k v r s = go (libevent.accepts_header k v)
    where
      go :
          (b : Bool)
          → ◌≡◌ {A = Result (Unit {0}) × HttpClient}
              (
                ok tt,
                with
                    (record r {
                      output_headers =
                          if b then r.output_headers ++ (k, v) ∷ [] else r.output_headers;
                    })
                    s,
              )
              (
                ok tt,
                with
                    (record r {
                      output_headers = r.output_headers ++ (if b then (k, v) ∷ [] else []);
                    })
                    s,
              )
      go true = refl
      go false = rw append-nil refl

  pub add_user_header-Heads :
      (t : ParameterType) (p : Parameter)
      → Heads (Content.add_user_header libevent t p) (user_header libevent t p)
  add_user_header-Heads header_type p = add_output_header-Heads (c_str p.key) (c_str p.value)
  add_user_header-Heads file_type p = pure-Heads
  add_user_header-Heads string_type p = pure-Heads

  pub add_user_headers-Heads :
      (ps : HttpParameter) → Heads (Content.add_user_headers libevent ps) (user_headers libevent ps)
  unfolding Content.add_user_headers
  add_user_headers-Heads [] = pure-Heads
  add_user_headers-Heads (p ∷ ps) =
      next-Heads (Content.add_user_header libevent p.type p) (Content.add_user_headers libevent ps)
        (user_header libevent p.type p) (user_headers libevent ps) (add_user_header-Heads p.type p)
        (add_user_headers-Heads ps)

  -- A step that adds to the body.
  abbrev pub filling : Bytes → HttpRequest → HttpRequest
  filling bytes r = record r { output_buffer = r.output_buffer ++ bytes }

  abbrev pub Fills : M HttpClient (Unit {0}) → Bytes → Type 0
  Fills m bytes =
      (r : HttpRequest) (s : HttpClient) → m (with r s) ≡ (ok tt, with (filling bytes r) s)

  pub pure-Fills : Fills (pure tt) []
  pure-Fills r s =
      ap (λ l. (ok tt, with (record r { output_buffer = l }) s)) (sym (append-nil r.output_buffer))

  pub add_output-Fills : (bytes : Bytes) → Fills (Content.add_output libevent bytes) bytes
  add_output-Fills bytes r s = refl

  pub next-Fills :
      (m k : M HttpClient (Unit {0})) (xs ys : Bytes)
      → Fills m xs
      → Fills k ys
      → Fills (m >> k) (xs ++ ys)
  next-Fills m k xs ys f g r s =
      bind-ok m (λ _. k) (f r s)
      ∙ g (filling xs r) s
      ∙ ap (λ l. (ok tt, with (record r { output_buffer = l }) s))
          (append_assoc r.output_buffer xs ys)

  pub three-Fills :
      (xs ys zs : Bytes)
      → Fills
          (do
            Content.add_output libevent xs
            Content.add_output libevent ys
            Content.add_output libevent zs)
          (xs ++ ys ++ zs)
  three-Fills xs ys zs r s =
      let o = r.output_buffer in
      ap (λ l. (ok tt, with (record r { output_buffer = l }) s))
        (append_assoc (o ++ xs) ys zs
          ∙ append_assoc o xs (ys ++ zs)
          ∙ ap (λ l. o ++ l) (sym (append_assoc xs ys zs)))

  pub add_part-Fills :
      (boundary : Bytes) (t : ParameterType) (p : Parameter)
      → Fills (Content.add_part libevent boundary t p) (part_text libevent boundary t p)
  add_part-Fills boundary header_type p = pure-Fills
  add_part-Fills boundary string_type p =
      three-Fills (dashes ++ boundary ++ name_head ++ c_str p.key ++ string_tail) p.value crlf
  add_part-Fills boundary file_type p = go (libevent.open_file (c_str p.value))
    where
      go :
          (o : Option Bytes)
          → Fills (Content.add_file_part libevent boundary p o) (file_part libevent boundary p o)
      go none = pure-Fills
      go (some contents) =
          three-Fills
            (dashes
              ++ boundary
              ++ name_head
              ++ c_str p.key
              ++ filename_head
              ++ c_str (get_name_of_path (c_str p.value))
              ++ file_tail)
            contents crlf

  pub add_parts-Fills :
      (boundary : Bytes) (ps : HttpParameter)
      → Fills (Content.add_parts libevent boundary ps) (parts libevent boundary ps)
  unfolding Content.add_parts
  add_parts-Fills boundary [] = pure-Fills
  add_parts-Fills boundary (p ∷ ps) =
      next-Fills (Content.add_part libevent boundary p.type p)
        (Content.add_parts libevent boundary ps) (part_text libevent boundary p.type p)
        (parts libevent boundary ps) (add_part-Fills boundary p.type p)
        (add_parts-Fills boundary ps)

  pub post_body-Fills :
      (b : Bool) (boundary : Bytes) (ps : HttpParameter)
      → Fills
          (if b
            then Content.add_parts libevent boundary ps
            else Content.add_output libevent (make_get_method_body libevent ps))
          (body libevent http_post b boundary ps)
  post_body-Fills true boundary ps = add_parts-Fills boundary ps
  post_body-Fills false boundary ps = add_output-Fills (make_get_method_body libevent ps)

  -- What `_makePostBody` does with an empty output buffer.
  pub post_body_lem :
      (hs : Headers) (s : HttpClient)
      → let bytes = body libevent http_post s.multipart s.boundary s.param in
        Content.make_post_body libevent
          (with (record { output_headers = hs; output_buffer = [] }) s)
        ≡ (
          ok (length bytes % u32_mod),
          with (record { output_headers = hs; output_buffer = bytes }) s,
        )
  unfolding Content.make_post_body
  post_body_lem hs s =
      bind-ok
        (if s.multipart
          then Content.add_parts libevent s.boundary s.param
          else Content.add_output libevent (make_get_method_body libevent s.param))
        (λ _. Http.the (λ s'. s'.req) >>= λ r. pure (length r.output_buffer % u32_mod))
        (post_body-Fills s.multipart s.boundary s.param
          (record { output_headers = hs; output_buffer = [] }) s)

  pub post_header-Heads :
      (b : Bool) (boundary : Bytes)
      → Heads
          (if b
            then Content.add_output_header libevent content_type_key (multipart_form ++ boundary)
            else Content.add_output_header libevent content_type_key form_urlencoded)
          (content_type libevent http_post b boundary)
  post_header-Heads true boundary =
      add_output_header-Heads content_type_key (multipart_form ++ boundary)
  post_header-Heads false boundary = add_output_header-Heads content_type_key form_urlencoded

  -- `makeHeaderAndBody` behind `_makeBasicHeader`, by the method.
  abbrev pub after_basic : Bytes → MethodType → M HttpClient (Unit {0})
  after_basic digits m =
      (if is_post m
        then (Content.make_multipart_boundary libevent digits
            >> (Content.make_post_header libevent >> Content.make_post_body libevent))
        else pure 0)
      >>= Content.make_content_length_header libevent

  abbrev pub rest_of_headers : MethodType → Bool → Bytes → HttpParameter → Headers
  rest_of_headers m multipart boundary ps =
      content_type libevent m multipart boundary
      ++ (
        content_length_key,
        libevent.print_int (length (body libevent m multipart boundary ps) % u32_mod),
      )
        ∷ []

  pub after_basic_lem :
      (digits : Bytes) (m : MethodType) (hs : Headers) (s : HttpClient)
      → let b = boundary_of libevent m digits s.boundary in
        after_basic digits m (with (record { output_headers = hs; output_buffer = [] }) s) ≡ (
          ok tt,
          with
              (record {
                output_headers = hs ++ accepted libevent (rest_of_headers m s.multipart b s.param);
                output_buffer = body libevent m s.multipart b s.param;
              })
              (record s { boundary = b }),
        )
  unfolding Content.make_content_length_header Content.make_multipart_boundary
      Content.make_post_header
  after_basic_lem digits http_get hs s =
      add_output_header-Heads content_length_key (libevent.print_int 0)
        (record { output_headers = hs; output_buffer = [] }) s
  after_basic_lem digits http_unknown hs s =
      add_output_header-Heads content_length_key (libevent.print_int 0)
        (record { output_headers = hs; output_buffer = [] }) s
  after_basic_lem digits http_post hs s =
      let b = dashes ++ digits in
      let s' : HttpClient = record s { boundary = b } in
      let r : HttpRequest = record { output_headers = hs; output_buffer = [] } in
      let bytes = body libevent http_post s.multipart b s.param in
      let ct = content_type libevent http_post s.multipart b in
      let cl : Bytes × Bytes = (content_length_key, libevent.print_int (length bytes % u32_mod)) in
      ap (resume (Content.make_content_length_header libevent)) (
        ap (resume (λ _. Content.make_post_body libevent)) (post_header-Heads s.multipart b r s')
        ∙ post_body_lem (hs ++ accepted libevent ct) s')
      ∙ add_output_header-Heads cl.0 cl.1
          (record { output_headers = hs ++ accepted libevent ct; output_buffer = bytes }) s'
      ∙ ap (λ x. (ok tt, with (record x { output_buffer = bytes }) s'))
          (heading-append ct (cl ∷ []) r)

  -- `makeHeaderAndBody`
  pub header_and_body_lem :
      (digits host path : Bytes) (port : Option ℕ) (s : HttpClient)
      → let b = boundary_of libevent s.method digits s.boundary in
        let s' : HttpClient = record s { evuri = some (uri_of libevent host path port) } in
        Content.make_header_and_body libevent digits
          (with (record { output_headers = []; output_buffer = [] }) s')
        ≡ (
          ok tt,
          with
              (record {
                output_headers =
                    accepted libevent (headers libevent s.method s.multipart b s.param host);
                output_buffer = body libevent s.method s.multipart b s.param;
              })
              (record s' { boundary = b }),
        )
  unfolding Content.make_header_and_body Content.make_basic_header
  header_and_body_lem digits host path port s =
      let s' : HttpClient = record s { evuri = some (uri_of libevent host path port) } in
      let r : HttpRequest = record { output_headers = []; output_buffer = [] } in
      let b = boundary_of libevent s.method digits s.boundary in
      let first = (host_key, host) ∷ user_headers libevent s.param in
      let basic =
        next-Heads (Content.add_output_header libevent host_key host)
          (Content.add_user_headers libevent s.param) ((host_key, host) ∷ [])
          (user_headers libevent s.param) (add_output_header-Heads host_key host)
          (add_user_headers-Heads s.param) r s' in
      ap (resume (λ _ (q : HttpClient). after_basic digits q.method q)) basic
      ∙ after_basic_lem digits s.method (accepted libevent first) s'
      ∙ ap
          (λ l. (
            ok tt,
            with
                (record {
                  output_headers = l;
                  output_buffer = body libevent s.method s.multipart b s.param;
                })
                (record s' { boundary = b }),
          ))
          (sym (accepted-append first (rest_of_headers s.method s.multipart b s.param)))
