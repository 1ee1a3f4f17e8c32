-- ===== src/Http/Repeated.antt =====
-- What one request of a client of Http.antt leaves for the next.
use mathlib.Core.Path.{subst}
use mathlib.Core.Bool.{false≢true}
use coconut.Base.{
  ℕ, ◌≡◌, refl, sym, ap, ◌∙◌, arith, Bool, true, false, ◌==◌, List, [], ◌∷◌, ◌++◌, map,
  append_assoc, append-nil, Option, none, some, Bytes, if◌then◌else◌, ok, M, ◌>>◌, pure, bind-ok,
  Bool-cases, inl, inr,
}
use coconut.Http.Answered.{
  fire_response_lem, taken, taken-Inv, ends, ends_lem, logged-Inv, cancel_lem, cancelled,
}
use coconut.Http.Answering
use coconut.Http.Answering.{Response, insert, insert_all}
use coconut.Http.Body.{all_parameters, made, uri_of}
use coconut.Http.Made.{request_lem}
use coconut.Http.Cleaning.{answered-Inv}
use coconut.Http.History.{quiet, is_open, Inv}
use coconut.Http.Invariant.{made-Inv}
use coconut.Http.Requesting
use coconut.Http.Requesting.{EventHandler, add_arguments, chosen}
use coconut.Http.{
  HttpClient, Libevent, Parameter, HttpParameter, string_type, prepare, find, find_header, is_some,
  equal_keys, add_parameter, canceled, on_error, is_prepare,
}

-- The value of an earlier response, or else the first one of this response.
abbrev pub or_new : Option Bytes → Option Bytes → Option Bytes
or_new (some v) o = some v
or_new none o = o

equal_keys_refl : (k : Bytes) → equal_keys k k ≡ true
equal_keys_refl [] = refl
equal_keys_refl (c ∷ cs) = let h = equal_keys_refl cs in ground (arith, h)

find-append :
    (key k v : Bytes) (l : List (Bytes × Bytes))
    → find key (l ++ (k, v) ∷ []) ≡ or_new (find key l) (if equal_keys key k then some v else none)
find-append key k v [] = refl
find-append key k v ((j, w) ∷ l) = go (equal_keys key j) (find-append key k v l)
  where
    go :
        (b : Bool)
        → find key (l ++ (k, v) ∷ [])
          ≡ or_new (find key l) (if equal_keys key k then some v else none)
        → (if b then some w else find key (l ++ (k, v) ∷ []))
          ≡ or_new (if b then some w else find key l) (if equal_keys key k then some v else none)
    go true h = refl
    go false h = h

equal_keys→eq : (k j : Bytes) → equal_keys k j ≡ true → k ≡ j
equal_keys→eq [] [] h = refl
equal_keys→eq [] (d ∷ ds) h = absurd (false≢true h)
equal_keys→eq (c ∷ cs) [] h = absurd (false≢true h)
equal_keys→eq (c ∷ cs) (d ∷ ds) h = elim (Bool-cases (c == d)) [
  | inl e ↦
      let t =
        equal_keys→eq cs ds
          (sym (ap (λ (b : Bool). if b then equal_keys cs ds else false) e) ∙ h) in
      let n : c ≡ d = ground (arith, e) in ap (λ x. x ∷ cs) n ∙ ap (λ l. d ∷ l) t
  | inr e ↦
      absurd (false≢true (sym (ap (λ (b : Bool). if b then equal_keys cs ds else false) e) ∙ h))
]

or_new-none : (o : Option Bytes) → o ≡ or_new o none
or_new-none none = refl
or_new-none (some v) = refl

or_new-some : (o p : Option Bytes) → is_some o ≡ true → o ≡ or_new o p
or_new-some none p h = absurd (false≢true h)
or_new-some (some v) p h = refl

find-insert :
    (key k v : Bytes) (l : List (Bytes × Bytes))
    → find key (insert k v l) ≡ or_new (find key l) (if equal_keys key k then some v else none)
find-insert key k v l = go (is_some (find k l)) (equal_keys key k) refl refl
  where
    go :
        (b c : Bool)
        → is_some (find k l) ≡ b
        → equal_keys key k ≡ c
        → find key (if b then l else l ++ (k, v) ∷ [])
          ≡ or_new (find key l) (if c then some v else none)
    go true true h e =
        or_new-some (find key l) (some v) (ap (λ x. is_some (find x l)) (equal_keys→eq key k e) ∙ h)
    go true false h e = or_new-none (find key l)
    go false c h e =
        find-append key k v l
        ∙ ap (λ (x : Bool). or_new (find key l) (if x then some v else none)) e

or_new-if :
    (o p : Option Bytes) (b : Bool) (v : Bytes)
    → or_new (or_new o (if b then some v else none)) p ≡ or_new o (if b then some v else p)
or_new-if (some w) p b v = refl
or_new-if none p true v = refl
or_new-if none p false v = refl

find-insert_all :
    (key : Bytes) (hs l : List (Bytes × Bytes))
    → find key (insert_all hs l) ≡ or_new (find key l) (find key hs)
find-insert_all key [] l = or_new-none (find key l)
find-insert_all key ((k, v) ∷ hs) l =
    find-insert_all key hs (insert k v l)
    ∙ ap (λ o. or_new o (find key hs)) (find-insert key k v l)
    ∙ or_new-if (find key l) (find key hs) (equal_keys key k) v

abbrev pub text_of : Option Bytes → Bytes
text_of none = []
text_of (some v) = v

find_header_lem :
    (key : Bytes) (s : HttpClient) → find_header key s ≡ text_of (find key s.input_headers)
unfolding find_header
find_header_lem key s = go (find key s.input_headers)
  where
    go : (o : Option Bytes) → (elim o [ none ↦ [] | some v ↦ v ]) ≡ text_of o
    go none = refl
    go (some v) = refl

-- Behind a response with the status 200 to an open request, `findHeader` gives for a key the value
-- that an earlier response had for it, when there is one, and only otherwise the first value that
-- this response has; it is empty when neither has the key.
pub find_header-http_done_cb :
    (key : Bytes) (r : Response) (s : HttpClient)
    → Inv s
    → is_open s ≡ true
    → r.response_code ≡ 200
    → find_header key (Answering.http_done_cb quiet (some r) s).1
      ≡ text_of (or_new (find key s.input_headers) (find key r.input_headers))
unfolding Answering.http_done_cb find_header
find_header-http_done_cb key r s i h good =
    let s1 = taken true r (record s { response_code = r.response_code }) in
    let test : (r.response_code == 200) ≡ true = ground (arith, good) in
    let e =
      fire_response_lem r s i h
      ∙ ap (λ b. ends (taken b r (record s { response_code = r.response_code }))) test
      ∙ ends_lem s1 (taken-Inv true r r.response_code s i) in
    ap (λ o. find_header key o.1) e
    ∙ find_header_lem key s1
    ∙ ap text_of (find-insert_all key r.input_headers s.input_headers)

-- The parameter that an argument of a URI becomes.
abbrev pub argument : Bytes × Bytes → Parameter
argument (key, value) = record { type = string_type; key = key; value = value }

add_arguments_lem :
    (args : List (Bytes × Bytes)) (ps : HttpParameter)
    → add_arguments args ps ≡ ps ++ map argument args
unfolding add_parameter
add_arguments_lem [] ps = sym (append-nil ps)
add_arguments_lem ((key, value) ∷ args) ps =
    add_arguments_lem args (add_parameter key value ps)
    ∙ append_assoc ps (argument (key, value) ∷ []) (map argument args)

-- The same list once for each of these.
abbrev pub copies : List Bytes → HttpParameter → HttpParameter
copies [] ps = []
copies (d ∷ ds) ps = ps ++ copies ds ps

module _ (libevent : Libevent) where
  -- A request that is cancelled, and several of them.
  abbrev pub round : Bytes → M HttpClient (Unit {0})
  round digits = Requesting.request libevent digits >> Requesting.cancel quiet

  abbrev pub rounds : List Bytes → M HttpClient (Unit {0})
  rounds [] = pure tt
  rounds (d ∷ ds) = round d >> rounds ds

  -- A client in `Prepare` without parameters of the user, for this URI.
  pub record Again (uri host path : Bytes) (port : Option ℕ) (s : HttpClient) : Type 0 where
    pub inv : Inv s
    pub ready : s.state ≡ prepare
    pub no_user : s.param_temp ≡ none
    pub same_uri : s.uri ≡ uri
    pub parsed : libevent.uri_parse uri ≡ some (uri_of libevent host path port)

  round_lem :
      (digits uri host path : Bytes) (port : Option ℕ) (s : HttpClient)
      → Again uri host path port s
      → let (x, s') = round digits s in
        (x ≡ ok tt)
        × Again uri host path port s'
        × (s'.param ≡ s.param ++ map argument (libevent.parse_query uri))
  round_lem digits uri host path port s h =
      let args = libevent.parse_query in
      let e =
        request_lem libevent digits host path port s h.ready
          (ap libevent.uri_parse h.same_uri ∙ h.parsed) in
      let m = made libevent digits host path port (all_parameters libevent s) s in
      let i =
        made-Inv libevent digits host path port (all_parameters libevent s) s h.inv
          (ap is_prepare h.ready) in
      let both =
        bind-ok (Requesting.request libevent digits) (λ _. Requesting.cancel quiet) e
        ∙ cancel_lem m i refl in
      subst
        (λ o.
          (o.0 ≡ ok tt)
          × Again uri host path port o.1
          × (o.1.param ≡ s.param ++ map argument (args uri)))
        (sym both)
        (
          refl,
          record {
            inv =
                answered-Inv (on_error canceled) false (cancelled m) (logged-Inv m i) refl refl
                  (omega arith);
            ready = refl;
            no_user = h.no_user;
            same_uri = h.same_uri;
            parsed = h.parsed;
          },
          ap (λ o. add_arguments (args s.uri) (chosen o s.param)) h.no_user
              ∙ add_arguments_lem (args s.uri) s.param
              ∙ ap (λ u. s.param ++ map argument (args u)) h.same_uri,
        )

  -- Requests for the same URI, each cancelled, by a client in `Prepare` that has been given no
  -- parameters: all return, the client is in `Prepare`, and the parameters that the next request
  -- starts from have grown by the arguments of the URI once for each of the requests.
  pub rounds_lem :
      (digits : List Bytes) (uri host path : Bytes) (port : Option ℕ) (s : HttpClient)
      → Again uri host path port s
      → let (x, s') = rounds digits s in
        (x ≡ ok tt)
        × (s'.state ≡ prepare)
        × (s'.param ≡ s.param ++ copies digits (map argument (libevent.parse_query uri)))
  rounds_lem [] uri host path port s h = (refl, h.ready, sym (append-nil s.param))
  rounds_lem (d ∷ ds) uri host path port s h =
      let (x, again, grown) = round_lem d uri host path port s h in
      let s1 = (round d s).1 in
      let ps = map argument (libevent.parse_query uri) in
      let (y, ready, all) = rounds_lem ds uri host path port s1 again in
      let e : rounds (d ∷ ds) s ≡ rounds ds s1 =
        bind-ok (round d) (λ _. rounds ds) (ap (λ r. (r, s1)) x) in
      (
        ap (λ o. o.0) e ∙ y,
        ap (λ o. o.1.state) e ∙ ready,
        ap (λ o. o.1.param) e
            ∙ all
            ∙ ap (λ l. l ++ copies ds ps) grown
            ∙ append_assoc s.param ps (copies ds ps),
      )
