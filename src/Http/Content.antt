-- ===== src/Http/Content.antt =====
-- What goes into a request of Http.antt: its headers, its body and its URI.
use coconut.Base.{
  ℕ, suc, ◌+◌, ◌-◌, ◌%◌, Bool, true, false, [], ◌∷◌, ◌++◌, Option, none, some, Bytes, length, drop,
  ◌==◌, if◌then◌else◌, u32_mod, M, ◌>>=◌, ◌>>◌, pure, gets, modify,
}
use coconut.Http.{
  Parameter, ParameterType, header_type, file_type, string_type, HttpParameter, Libevent,
  HttpClient, is_post, is_get, the, on_request,
}
use coconut.Http.Texts.{
  host_key, content_length_key, content_type_key, form_urlencoded, multipart_form, name_head,
  string_tail, filename_head, file_tail, crlf, dashes,
}

-- A text of C ends before its first 0.
abbrev pub c_str : Bytes → Bytes
c_str [] = []
c_str (c ∷ cs) = let rest = c_str cs in if c == 0 then [] else c ∷ rest

-- `rfind` of a character.
abbrev pub rfind : ℕ → Bytes → Option ℕ
rfind c [] = none
rfind c (x ∷ xs) = elim (rfind c xs) [
  | some n ↦ some (suc n)
  | none ↦ if x == c then some 0 else none
]

unfoldable pub get_name_of_path : Bytes → Bytes
get_name_of_path path = elim (rfind 47 path) [
  | none ↦ path
  | some pos ↦ if pos == length path - 1 then [] else drop (pos + 1) path
]

module _ (libevent : Libevent) where
  -- evhttp_add_header, whose result is not looked at.
  abbrev pub add_output_header : Bytes → Bytes → M HttpClient (Unit {0})
  add_output_header key value = on_request (λ r. record r {
    output_headers =
        if libevent.accepts_header key value
        then r.output_headers ++ (key, value) ∷ []
        else r.output_headers;
  })

  abbrev pub add_output : Bytes → M HttpClient (Unit {0})
  add_output data_bytes =
      on_request (λ r. record r { output_buffer = r.output_buffer ++ data_bytes })

  -- The loop over the parameters, which takes the headers.
  abbrev pub add_user_header : ParameterType → Parameter → M HttpClient (Unit {0})
  add_user_header header_type p = add_output_header (c_str p.key) (c_str p.value)
  add_user_header _ p = pure tt

  unfoldable pub add_user_headers : HttpParameter → M HttpClient (Unit {0})
  add_user_headers [] = pure tt
  add_user_headers (p ∷ ps) = add_user_header p.type p >> add_user_headers ps

  unfoldable pub make_basic_header : M HttpClient (Unit {0})
  make_basic_header = do
    u ← the (λ s. s.evuri)
    host ← the (λ s. u.host)
    add_output_header host_key host
    ps ← gets (λ s. s.param)
    add_user_headers ps

  unfoldable pub make_content_length_header : ℕ → M HttpClient (Unit {0})
  make_content_length_header size = add_output_header content_length_key (libevent.print_int size)

  unfoldable pub make_post_header : M HttpClient (Unit {0})
  make_post_header = do
    multipart ← gets (λ s. s.multipart)
    boundary ← gets (λ s. s.boundary)
    if multipart
        then add_output_header content_type_key (multipart_form ++ boundary)
        else add_output_header content_type_key form_urlencoded

  -- `_makeMultipartBoundary`, with the thirteen characters that rand has given.
  unfoldable pub make_multipart_boundary : Bytes → M HttpClient (Unit {0})
  make_multipart_boundary digits = modify (λ s. record s { boundary = dashes ++ digits })

  -- What one parameter of a multipart body adds.
  abbrev pub add_string_part : Bytes → Parameter → M HttpClient (Unit {0})
  add_string_part boundary p = do
    add_output (dashes ++ boundary ++ name_head ++ c_str p.key ++ string_tail)
    add_output p.value
    add_output crlf

  abbrev pub add_file_part : Bytes → Parameter → Option Bytes → M HttpClient (Unit {0})
  add_file_part boundary p none = pure tt
  add_file_part boundary p (some contents) = do
    add_output (
        dashes
        ++ boundary
        ++ name_head
        ++ c_str p.key
        ++ filename_head
        ++ c_str (get_name_of_path (c_str p.value))
        ++ file_tail)
    add_output contents
    add_output crlf

  abbrev pub add_part : Bytes → ParameterType → Parameter → M HttpClient (Unit {0})
  add_part boundary header_type p = pure tt
  add_part boundary string_type p = add_string_part boundary p
  add_part boundary file_type p = add_file_part boundary p (libevent.open_file (c_str p.value))

  unfoldable pub add_parts : Bytes → HttpParameter → M HttpClient (Unit {0})
  add_parts boundary [] = pure tt
  add_parts boundary (p ∷ ps) = add_part boundary p.type p >> add_parts boundary ps

  -- The loop of `_makeGetMethodBody`, with its result so far and its `first`.
  abbrev pub add_pair : ParameterType → Parameter → Bytes → Bool → Bytes × Bool
  add_pair string_type p result first =
      (result ++ (p.key ++ 61 ∷ libevent.uriencode p.value), false)
  add_pair _ p result first = (result, first)

  unfoldable pub get_method_loop : HttpParameter → Bytes → Bool → Bytes
  get_method_loop [] result first = result
  get_method_loop (p ∷ ps) result first =
      let joined = if first then result else result ++ 38 ∷ [] in
      let (next, still) = add_pair p.type p joined first in get_method_loop ps next still

  unfoldable pub make_get_method_body : HttpParameter → Bytes
  make_get_method_body ps = get_method_loop ps [] true

  unfoldable pub make_post_body : M HttpClient ℕ
  make_post_body = do
    multipart ← gets (λ s. s.multipart)
    boundary ← gets (λ s. s.boundary)
    ps ← gets (λ s. s.param)
    if multipart then add_parts boundary ps else add_output (make_get_method_body ps)
    r ← the (λ s. s.req)
    pure (length r.output_buffer % u32_mod)

  unfoldable pub make_header_and_body : Bytes → M HttpClient (Unit {0})
  make_header_and_body digits = do
    make_basic_header
    method ← gets (λ s. s.method)
    size ←
        if is_post method
        then (do make_multipart_boundary digits; make_post_header; make_post_body)
        else pure 0
    make_content_length_header size

  unfoldable pub make_request_uri : M HttpClient Bytes
  make_request_uri = do
    u ← the (λ s. s.evuri)
    method ← gets (λ s. s.method)
    ps ← gets (λ s. s.param)
    pure (if is_get method then u.path ++ (63 ∷ []) ++ make_get_method_body ps else u.path)
