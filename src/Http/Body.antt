-- ===== src/Http/Body.antt =====
-- The request that a client of Http.antt makes: its headers, its body and its URI.
use coconut.Base.{
  ℕ, ◌%◌, Bool, true, List, [], ◌∷◌, ◌++◌, Option, none, some, Bytes, length, u32_mod,
  if◌then◌else◌,
}
use coconut.Http.{
  Parameter, ParameterType, header_type, file_type, string_type, HttpParameter, Libevent,
  HttpClient, HttpRequest, HttpConnection, MethodType, http_post, http_get, http_unknown,
  requesting, is_post, make_request, Uri,
}
use coconut.Http.Content.{c_str, get_name_of_path, make_get_method_body}
use coconut.Http.Requesting.{add_arguments, chosen}
use coconut.Http.Texts.{
  host_key, content_length_key, content_type_key, form_urlencoded, multipart_form, name_head,
  string_tail, filename_head, file_tail, crlf, dashes,
}

abbrev pub Headers : Type 0
Headers = List (Bytes × Bytes)

-- The port that a URI gives, and that of HTTP where it gives none.
abbrev pub given_port : Option ℕ → ℕ
given_port port = elim port [ none ↦ 80 | some p ↦ p ]

module _ (libevent : Libevent) where
  -- The headers that libevent takes.
  abbrev pub accepted : Headers → Headers
  accepted [] = []
  accepted ((k, v) ∷ hs) =
      let rest = accepted hs in if libevent.accepts_header k v then (k, v) ∷ rest else rest

  -- The user's headers.
  abbrev pub user_header : ParameterType → Parameter → Headers
  user_header header_type p = (c_str p.key, c_str p.value) ∷ []
  user_header _ p = []

  abbrev pub user_headers : HttpParameter → Headers
  user_headers [] = []
  user_headers (p ∷ ps) = user_header p.type p ++ user_headers ps

  -- The part of a multipart body that a parameter stands for.
  abbrev pub file_part : Bytes → Parameter → Option Bytes → Bytes
  file_part boundary p none = []
  file_part boundary p (some contents) =
      dashes
      ++ boundary
      ++ name_head
      ++ c_str p.key
      ++ filename_head
      ++ c_str (get_name_of_path (c_str p.value))
      ++ file_tail
      ++ contents
      ++ crlf

  abbrev pub part_text : Bytes → ParameterType → Parameter → Bytes
  part_text boundary header_type p = []
  part_text boundary string_type p =
      dashes ++ boundary ++ name_head ++ c_str p.key ++ string_tail ++ p.value ++ crlf
  part_text boundary file_type p = file_part boundary p (libevent.open_file (c_str p.value))

  abbrev pub parts : Bytes → HttpParameter → Bytes
  parts boundary [] = []
  parts boundary (p ∷ ps) = part_text boundary p.type p ++ parts boundary ps

  -- What goes out for a method: the multipart flag, the boundary, the parameters and the host.
  abbrev pub body : MethodType → Bool → Bytes → HttpParameter → Bytes
  body http_get multipart boundary ps = []
  body http_unknown multipart boundary ps = []
  body http_post multipart boundary ps =
      if multipart then parts boundary ps else make_get_method_body libevent ps

  abbrev pub content_type : MethodType → Bool → Bytes → Headers
  content_type http_get multipart boundary = []
  content_type http_unknown multipart boundary = []
  content_type http_post multipart boundary =
      (content_type_key, if multipart then multipart_form ++ boundary else form_urlencoded) ∷ []

  abbrev pub headers : MethodType → Bool → Bytes → HttpParameter → Bytes → Headers
  headers method multipart boundary ps host =
      (host_key, host)
      ∷ (user_headers ps
          ++ (content_type method multipart boundary
              ++ (
                content_length_key,
                libevent.print_int (length (body method multipart boundary ps) % u32_mod),
              )
                ∷ []))

  -- The path, and behind a `?` the query of a GET.
  abbrev pub request_uri : MethodType → Bytes → HttpParameter → Bytes
  request_uri http_post path ps = path
  request_uri http_unknown path ps = path
  request_uri http_get path ps = path ++ 63 ∷ make_get_method_body libevent ps

  abbrev pub uri_of : Bytes → Bytes → Option ℕ → Uri
  uri_of host path port = record { host = some host; port = port; path = path }

  abbrev pub boundary_of : MethodType → Bytes → Bytes → Bytes
  boundary_of http_get digits old = old
  boundary_of http_unknown digits old = old
  boundary_of http_post digits old = dashes ++ digits

  -- The parameters of a request: the user's or those that are there, and the URI's arguments.
  abbrev pub all_parameters : HttpClient → HttpParameter
  all_parameters s = add_arguments (libevent.parse_query s.uri) (chosen s.param_temp s.param)

  -- The request of a client, and what is on the way for it.
  abbrev pub made : Bytes → Bytes → Bytes → Option ℕ → HttpParameter → HttpClient → HttpClient
  made digits host path port ps s =
      let b = boundary_of s.method digits s.boundary in
      let con : HttpConnection = record {
        dnsbase = s.dnsbase;
        host = host;
        port = given_port port;
        timeout = s.timeout;
      } in
      let r : HttpRequest = record {
        output_headers = accepted (headers s.method s.multipart b ps host);
        output_buffer = body s.method s.multipart b ps;
      } in
      record s {
        state = requesting;
        evcon = some con;
        dnsbase = true;
        req = some r;
        evuri = some (uri_of host path port);
        responsebuffer = if s.chunkmode then some [] else s.responsebuffer;
        param = ps;
        boundary = b;
        calls =
            s.calls ++ make_request con r (is_post s.method) (request_uri s.method path ps) ∷ [];
      }
