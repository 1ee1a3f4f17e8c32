-- ===== src/Http/Query.antt =====
-- The query that `_makeGetMethodBody` (src/LibeventHttpClientImpl.h) makes of the parameters.
use coconut.Base.{
  ◌≡◌, refl, sym, ◌∙◌, true, false, List, [], ◌∷◌, ◌++◌, map, append_assoc, append-nil, Bytes,
}
use coconut.Http.{
  Parameter, ParameterType, header_type, file_type, string_type, HttpParameter, Libevent,
}
use coconut.Http.Content.{add_pair, get_method_loop, make_get_method_body}

-- The texts behind each other, and each but the first behind an `&`.
abbrev pub concat : List Bytes → Bytes
concat [] = []
concat (x ∷ xs) = x ++ concat xs

abbrev pub join : List Bytes → Bytes
join [] = []
join (x ∷ xs) = x ++ concat (map (λ y. 38 ∷ y) xs)

-- The parameters from the first one that is a text.
abbrev pub from_first : HttpParameter → HttpParameter
from_first [] = []
from_first (p ∷ ps) = elim p.type [ string_type ↦ p ∷ ps | _ ↦ from_first ps ]

module _ (libevent : Libevent) where
  abbrev pub pair_text : ParameterType → Parameter → Bytes
  pair_text string_type p = p.key ++ 61 ∷ libevent.uriencode p.value
  pair_text _ p = []

  -- A key, `=` and the encoded value, or nothing for a header or a file.
  abbrev pub pair : Parameter → Bytes
  pair p = pair_text p.type p

  behind_first :
      (ps : HttpParameter) (result : Bytes)
      → get_method_loop libevent ps result false
        ≡ result ++ concat (map (λ y. 38 ∷ y) (map pair ps))
  unfolding get_method_loop
  behind_first [] result = sym (append-nil result)
  behind_first (p ∷ ps) result = go (behind_first ps) p.type
    where
      tail : Bytes
      tail = concat (map (λ y. 38 ∷ y) (map pair ps))

      go :
          ((r : Bytes) → get_method_loop libevent ps r false ≡ r ++ tail)
          → (t : ParameterType)
          → let (next, still) = add_pair libevent t p (result ++ 38 ∷ []) false in
            get_method_loop libevent ps next still ≡ result ++ ((38 ∷ pair_text t p) ++ tail)
      go rest header_type = rest (result ++ 38 ∷ []) ∙ append_assoc result (38 ∷ []) tail
      go rest file_type = rest (result ++ 38 ∷ []) ∙ append_assoc result (38 ∷ []) tail
      go rest string_type =
          rest ((result ++ 38 ∷ []) ++ pair_text string_type p)
          ∙ append_assoc (result ++ 38 ∷ []) (pair_text string_type p) tail
          ∙ append_assoc result (38 ∷ []) (pair_text string_type p ++ tail)

  -- `_makeGetMethodBody` gives the pairs of the parameters from the first text on, joined by `&`,
  -- where a parameter that is a header or a file counts as an empty pair.
  pub make_get_method_body_lem :
      (ps : HttpParameter) → make_get_method_body libevent ps ≡ join (map pair (from_first ps))
  unfolding make_get_method_body get_method_loop
  make_get_method_body_lem [] = refl
  make_get_method_body_lem (p ∷ ps) = go (make_get_method_body_lem ps) p.type refl
    where
      go :
          get_method_loop libevent ps [] true ≡ join (map pair (from_first ps))
          → (t : ParameterType) → p.type ≡ t
          → let (next, still) = add_pair libevent t p [] true in
            get_method_loop libevent ps next still
            ≡ join (map pair (elim t [ string_type ↦ p ∷ ps | _ ↦ from_first ps ]))
      go rest header_type h = rest
      go rest file_type h = rest
      go rest string_type h = rw h (behind_first ps (pair_text string_type p))
