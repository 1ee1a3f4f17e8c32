-- ===== src/Kbuffer/Queue.antt =====
-- The abstract view of a kbuffer: the unread bytes of each chunk, the first one at the front.
use coconut.Base.{
  ℕ, ◌+◌, ◌-◌, ◌<◌, ◌≡◌, refl, sym, ap, ◌∙◌, arith, List, [], ◌∷◌, ◌++◌, Bytes, length, drop, ltb,
  ◌==◌, if◌then◌else◌, Bool-cases, inl, inr, append_assoc, drop-append, drop-append_le, drop-all,
  drop-drop,
}

abbrev pub Queue : Type 0
Queue = List Bytes

-- All unread bytes, in order.
abbrev pub flatten : Queue → Bytes
flatten [] = []
flatten (c ∷ q) = c ++ flatten q

-- The chunk at the front.
abbrev pub front : Queue → Bytes
front [] = []
front (c ∷ q) = c

-- The queue behind its first n bytes.
unfoldable pub drain : ℕ → Queue → Queue
drain n [] = []
drain n (c ∷ q) =
    let rest = drain (n - length c) q in
    if ltb n (length c) then drop n c ∷ q else (if n - length c == 0 then q else rest)

pub flatten-append : (q r : Queue) → flatten (q ++ r) ≡ flatten q ++ flatten r
flatten-append [] r = refl
flatten-append (c ∷ q) r =
    ap (λ (l : Bytes). c ++ l) (flatten-append q r) ∙ sym (append_assoc c (flatten q) (flatten r))

-- The three ways through a chunk.
module _ (n : ℕ) (c : Bytes) (q : Queue) where
  pub drain-inside : n < length c → drain n (c ∷ q) ≡ drop n c ∷ q
  unfolding drain
  drain-inside h = ground arith

  pub drain-exact : n ≡ length c → drain n (c ∷ q) ≡ q
  unfolding drain
  drain-exact h = ground arith

  pub drain-past : length c < n → drain n (c ∷ q) ≡ drain (n - length c) q
  unfolding drain
  drain-past h = ground arith

pub flatten-drain : (n : ℕ) (q : Queue) → flatten (drain n q) ≡ drop n (flatten q)
unfolding drain
flatten-drain n [] = sym (drop-all n [] (omega arith))
flatten-drain n (c ∷ q) = elim (Bool-cases (ltb n (length c))) [
  | inl t ↦
      ap flatten (drain-inside n c q (ground arith))
      ∙ sym (drop-append_le n c (flatten q) (ground arith))
  | inr f ↦ elim (Bool-cases (n - length c == 0)) [
    | inl z ↦
        ap flatten (drain-exact n c q (ground arith))
        ∙ sym (drop-append n c (flatten q) (ground arith))
    | inr z ↦
        let past : length c < n = ground arith in
        let e : length c + (n - length c) ≡ n = omega arith in
        ap flatten (drain-past n c q past)
        ∙ flatten-drain (n - length c) q
        ∙ ap (drop (n - length c)) (sym (drop-append (length c) c (flatten q) refl))
        ∙ drop-drop (n - length c) (length c) (c ++ flatten q)
        ∙ ap (λ (k : ℕ). drop k (c ++ flatten q)) e
  ]
]
