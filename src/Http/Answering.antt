-- ===== src/Http/Answering.antt =====
-- What libevent calls while a request of Http.antt is open: src/LibeventHttpClientImpl.h.
use coconut.Base.{
  ℕ, ◌%◌, false, List, [], ◌∷◌, ◌++◌, Option, none, some, Bytes, length, ◌==◌, if◌then◌else◌,
  u32_mod, M, ◌>>=◌, ◌>>◌, pure, gets, modify,
}
use coconut.Http.{
  HttpClient, receiving_response, is_requesting, connection_timeout, response_error, on_response,
  on_received_chunked, log, the, when, is_some, clean_up, find,
}
use coconut.Http.Requesting.{EventHandler, fire_error}

-- What has come in for the request: the status, the headers and the input buffer.
pub record Response : Type 0 where
  pub response_code : ℕ
  pub input_headers : List (Bytes × Bytes)
  pub input_buffer : Bytes

-- HTTP_OK
abbrev pub http_ok : ℕ
http_ok = 200

-- `insert` of the map keeps the value of a key that is there.
abbrev pub insert : Bytes → Bytes → List (Bytes × Bytes) → List (Bytes × Bytes)
insert key value l = if is_some (find key l) then l else l ++ (key, value) ∷ []

abbrev pub insert_all : List (Bytes × Bytes) → List (Bytes × Bytes) → List (Bytes × Bytes)
insert_all [] l = l
insert_all ((key, value) ∷ hs) l = insert_all hs (insert key value l)

unfoldable pub make_result_headers : Response → M HttpClient (Unit {0})
make_result_headers r =
    modify (λ s. record s { input_headers = insert_all r.input_headers s.input_headers })

unfoldable pub make_result_body : Response → M HttpClient (Unit {0})
make_result_body r = do
  chunkmode ← gets (λ s. s.chunkmode)
  body ← if chunkmode then the (λ s. s.responsebuffer) else pure r.input_buffer
  modify (λ s. record s { response_body = body })

module _ (handler : EventHandler) where
  -- `fire_onHttpClient_Response`, which reads through `req_`.
  unfoldable pub fire_response : Response → M HttpClient (Unit {0})
  fire_response r = do
    the (λ s. s.req)
    modify (λ s. record s { response_code = r.response_code })
    when (r.response_code == http_ok) (do make_result_headers r; make_result_body r)
    clean_up false
    code ← gets (λ s. s.response_code)
    log (on_response code)
    handler.response code

  -- The error that is told is chosen from the state.
  unfoldable pub fire_failed : M HttpClient (Unit {0})
  fire_failed = do
    x ← gets (λ s. s.state)
    chunkmode ← gets (λ s. s.chunkmode)
    fire_error handler (
        if is_requesting x
        then (if chunkmode then connection_timeout else response_error)
        else response_error)

  -- `http_done_cb`, whose request is NULL when it has failed.
  unfoldable pub http_done_cb : Option Response → M HttpClient (Unit {0})
  http_done_cb none = fire_failed
  http_done_cb (some r) = fire_response r

  -- `http_chuncked_cb`, with what the input buffer of `req_` holds.
  unfoldable pub http_chunked_cb : Bytes → M HttpClient (Unit {0})
  http_chunked_cb chunk = do
    modify (λ s. record s { state = receiving_response })
    the (λ s. s.req)
    buffer ← the (λ s. s.responsebuffer)
    modify (λ s. record s { responsebuffer = some (buffer ++ chunk) })
    log (on_received_chunked (length (buffer ++ chunk) % u32_mod))
    handler.received_chunked (length (buffer ++ chunk) % u32_mod)
