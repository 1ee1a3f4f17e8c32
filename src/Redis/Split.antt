-- ===== src/Redis/Split.antt =====
-- The command that src/RedisRequest.cpp is given as one string, which it cuts at its spaces.
use coconut.Base.{
  ℕ, zero, suc, ◌+◌, ◌-◌, ◌<◌, ◌≡◌, refl, sym, ap, ◌∙◌, arith, Bool, not, List, [], ◌∷◌, ◌++◌,
  Option, none, some, Bytes, length, take, drop, ◌==◌, if◌then◌else◌, Option-cases, inl, inr,
  append-nil, append_assoc, length-drop, drop-drop,
}
use coconut.Redis.Trim.{trim, strip, trim_lem}

abbrev pub space : ℕ
space = 32

-- The first position at which a test holds, and `find` of the string from a position on.
abbrev pub index : (ℕ → Bool) → Bytes → Option ℕ
index p [] = none
index p (c ∷ cs) =
    let rest = index p cs in
    if p c then some 0 else elim rest [ none ↦ none | some i ↦ some (suc i) ]

abbrev pub find_from : (ℕ → Bool) → Bytes → ℕ → Option ℕ
find_from p s pos = elim (index p (drop pos s)) [ none ↦ none | some i ↦ some (pos + i) ]

abbrev pub is_space : ℕ → Bool
is_space c = c == space

abbrev pub not_space : ℕ → Bool
not_space c = not (is_space c)

-- `substr` from pos to pos2, or to the end for npos.
abbrev pub substr : Bytes → ℕ → Option ℕ → Bytes
substr s pos none = drop pos s
substr s pos (some pos2) = take (pos2 - pos) (drop pos s)

-- A part is kept unless it is empty.
abbrev pub push : List Bytes → Bytes → List Bytes
push args [] = args
push args (c ∷ cs) = args ++ (c ∷ cs) ∷ []

-- The loop from a position on, on fuel.
unfoldable pub split_loop : ℕ → Bytes → ℕ → List Bytes → Option (List Bytes)
split_loop zero s pos args = none
split_loop (suc fuel) s pos args =
    let pos2 = find_from is_space s pos in
    let args2 = push args (trim (substr s pos pos2)) in
    elim pos2 [
      | none ↦ some args2
      | some p ↦ elim (find_from not_space s p) [
        | none ↦ some args2
        | some q ↦ split_loop fuel s q args2
      ]
    ]

-- The arguments of `command(cmd, args, ...)`, with fuel for every byte and one more.
unfoldable pub split_command : Bytes → Bytes → Option (List Bytes)
split_command cmd s = split_loop (suc (length s)) s 0 (cmd ∷ [])

-- The fields between the spaces, one by one.
abbrev pub join_first : ℕ → List Bytes → List Bytes
join_first c [] = (c ∷ []) ∷ []
join_first c (w ∷ ws) = (c ∷ w) ∷ ws

abbrev pub fields : Bytes → List Bytes
fields [] = [] ∷ []
fields (c ∷ cs) = if c == 32 then [] ∷ fields cs else join_first c (fields cs)

-- They are stripped of the white space around them, and the empty ones are left out.
abbrev pub cons_filled : Bytes → List Bytes → List Bytes
cons_filled [] ws = ws
cons_filled (c ∷ cs) ws = (c ∷ cs) ∷ ws

abbrev pub stripped : List Bytes → List Bytes
stripped [] = []
stripped (w ∷ ws) = cons_filled (strip w) (stripped ws)

-- The same with the code's own way to do it.
abbrev trimmed : List Bytes → List Bytes
trimmed [] = []
trimmed (w ∷ ws) = cons_filled (trim w) (trimmed ws)

trimmed_lem : (ws : List Bytes) → trimmed ws ≡ stripped ws
trimmed_lem [] = refl
trimmed_lem (w ∷ ws) =
    ap (λ x. cons_filled x (trimmed ws)) (trim_lem w) ∙ ap (cons_filled (strip w)) (trimmed_lem ws)

push-trimmed :
    (args : List Bytes) (w : Bytes) (ws : List Bytes) → push args w ++ ws ≡ args ++ cons_filled w ws
push-trimmed args [] ws = refl
push-trimmed args (c ∷ cs) ws = append_assoc args ((c ∷ cs) ∷ []) ws

-- The fields up to the first space.
fields-none : (s : Bytes) → index is_space s ≡ none → fields s ≡ s ∷ []
fields-none [] h = refl
fields-none (c ∷ cs) h = ground (arith, fields-none cs)

fields-some :
    (s : Bytes) (i : ℕ) → index is_space s ≡ some i → fields s ≡ take i s ∷ fields (drop (suc i) s)
fields-some [] i h = ground arith
fields-some (c ∷ cs) zero h = ground arith
fields-some (c ∷ cs) (suc i) h = ground (arith, fields-some cs i)

-- Spaces in front make no part.
spaces-none : (s : Bytes) → index not_space s ≡ none → trimmed (fields s) ≡ []
spaces-none [] h = refl
spaces-none (c ∷ cs) h = ground (arith, spaces-none cs)

spaces-some :
    (s : Bytes) (j : ℕ)
    → index not_space s ≡ some j
    → trimmed (fields s) ≡ trimmed (fields (drop j s))
spaces-some [] j h = ground arith
spaces-some (c ∷ cs) zero h = refl
spaces-some (c ∷ cs) (suc j) h = ground (arith, spaces-some cs j)

at-space : (s : Bytes) (i : ℕ) → index is_space s ≡ some i → drop i s ≡ space ∷ drop (suc i) s
at-space [] i h = ground arith
at-space (c ∷ cs) zero h = ground arith
at-space (c ∷ cs) (suc i) h = ground (arith, at-space cs i)

-- What the loop does from a position on, by what it finds there.
module _ (fuel : ℕ) (s : Bytes) (pos : ℕ) (args : List Bytes) where
  loop-last :
      index is_space (drop pos s) ≡ none
      → split_loop (suc fuel) s pos args ≡ some (push args (trim (drop pos s)))
  unfolding split_loop
  loop-last h = ground arith

  loop-spaces :
      (i : ℕ)
      → index is_space (drop pos s) ≡ some i
      → index not_space (drop (pos + i) s) ≡ none
      → split_loop (suc fuel) s pos args ≡ some (push args (trim (take i (drop pos s))))
  unfolding split_loop
  loop-spaces i h k = let e : pos + i - pos ≡ i = omega arith in ground (arith, e)

  loop-next :
      (i j : ℕ)
      → index is_space (drop pos s) ≡ some i
      → index not_space (drop (pos + i) s) ≡ some j
      → split_loop (suc fuel) s pos args
        ≡ split_loop fuel s (pos + i + j) (push args (trim (take i (drop pos s))))
  unfolding split_loop
  loop-next i j h k = let e : pos + i - pos ≡ i = omega arith in ground (arith, e)

-- Behind a field, the spaces up to the next one, or up to the end.
behind-none :
    (s : Bytes) (i : ℕ)
    → index is_space s ≡ some i
    → index not_space (drop i s) ≡ none
    → trimmed (fields (drop (suc i) s)) ≡ []
behind-none s i h k = spaces-none (drop (suc i) s) (
    let e = at-space s i h in
    let z : index not_space (space ∷ drop (suc i) s) ≡ none = ap (index not_space) (sym e) ∙ k in
    ground arith)

behind-some :
    (s : Bytes) (i j : ℕ)
    → index is_space s ≡ some i
    → index not_space (drop i s) ≡ some j
    → (0 < j) × (trimmed (fields (drop (suc i) s)) ≡ trimmed (fields (drop (i + j) s)))
behind-some s i zero h k = absurd (
    let e = at-space s i h in
    let z : index not_space (space ∷ drop (suc i) s) ≡ some 0 = ap (index not_space) (sym e) ∙ k in
    ground arith)
behind-some s i (suc j) h k =
    let e = at-space s i h in
    let z : index not_space (space ∷ drop (suc i) s) ≡ some (suc j) =
      ap (index not_space) (sym e) ∙ k in
    let n : suc i + j ≡ i + suc j = omega arith in
    (
      omega arith,
      spaces-some (drop (suc i) s) j (ground arith)
          ∙ ap (λ x. trimmed (fields x)) (drop-drop j (suc i) s)
          ∙ ap (λ (m : ℕ). trimmed (fields (drop m s))) n,
    )

split_loop_lem :
    (fuel : ℕ) (s : Bytes) (pos : ℕ) (args : List Bytes)
    → length (drop pos s) < fuel
    → split_loop fuel s pos args ≡ some (args ++ trimmed (fields (drop pos s)))
split_loop_lem zero s pos args enough = absurd (omega arith)
split_loop_lem (suc fuel) s pos args enough = elim (Option-cases (index is_space (drop pos s))) [
  | inl h ↦
      loop-last fuel s pos args h
      ∙ ap (λ x. some x)
          (sym (append-nil (push args (trim (drop pos s))))
            ∙ push-trimmed args (trim (drop pos s)) []
            ∙ ap (λ x. args ++ trimmed x) (sym (fields-none (drop pos s) h)))
  | inr (i, h) ↦
      let w = trim (take i (drop pos s)) in
      let f = fields-some (drop pos s) i h in
      let at = drop-drop i pos s in
      elim (Option-cases (index not_space (drop (pos + i) s))) [
        | inl k ↦
            let none_left = behind-none (drop pos s) i h (ap (index not_space) at ∙ k) in
            loop-spaces fuel s pos args i h k
            ∙ ap (λ x. some x)
                (sym (append-nil (push args w))
                  ∙ push-trimmed args w []
                  ∙ ap (λ x. args ++ cons_filled w x) (sym none_left)
                  ∙ ap (λ x. args ++ trimmed x) (sym f))
        | inr (j, k) ↦
            let (some_spaces, same) =
              behind-some (drop pos s) i j h (ap (index not_space) at ∙ k) in
            let q : pos + (i + j) ≡ pos + i + j = omega arith in
            let d = drop-drop (i + j) pos s ∙ ap (λ (m : ℕ). drop m s) q in
            let l = ap length (at-space (drop pos s) i h) in
            let l1 = length-drop i (drop pos s) in
            let l2 = ap length (sym d) ∙ length-drop (i + j) (drop pos s) in
            loop-next fuel s pos args i j h k
            ∙ split_loop_lem fuel s (pos + i + j) (push args w)
                (omega (arith, l, l1, l2, some_spaces))
            ∙ ap (λ x. some (push args w ++ trimmed (fields x))) (sym d)
            ∙ ap (λ x. some (push args w ++ x)) (sym same)
            ∙ ap (λ x. some x) (push-trimmed args w (trimmed (fields (drop (suc i) (drop pos s)))))
            ∙ ap (λ x. some (args ++ trimmed x)) (sym f)
      ]
]

-- The loop that cuts a command's arguments at its spaces ends, and gives the command and the fields
-- between single spaces, each stripped of the blanks (space, tab, line feed, vertical tab and carriage
-- return) at both of its ends and the empty ones left out.
pub split_command_lem : (cmd s : Bytes) → split_command cmd s ≡ some (cmd ∷ stripped (fields s))
unfolding split_command
split_command_lem cmd s =
    split_loop_lem (suc (length s)) s 0 (cmd ∷ []) (omega arith)
    ∙ ap (λ x. some (cmd ∷ x)) (trimmed_lem (fields s))
