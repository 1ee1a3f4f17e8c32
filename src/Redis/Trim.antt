-- ===== src/Redis/Trim.antt =====
-- The white space around a part of a command, which src/RedisRequest.cpp erases from the end and
-- from the start, and what a text without it is, as a description of its own.
use coconut.Base.{
  ℕ, ◌≡◌, refl, sym, ap, ◌∙◌, arith, Bool, false, ◌||◌, [], ◌∷◌, ◌++◌, Bytes, ◌==◌, if◌then◌else◌,
}

-- TRIM_SPACE
abbrev pub is_trim_space : ℕ → Bool
is_trim_space c = (c == 32) || (c == 9) || (c == 13) || (c == 10) || (c == 11)

-- The two calls of `erase`.
abbrev pub erase_end : Bytes → Bytes
erase_end [] = []
erase_end (c ∷ cs) =
    let rest = erase_end cs in
    elim rest [ [] ↦ if is_trim_space c then [] else c ∷ [] | d ∷ ds ↦ c ∷ d ∷ ds ]

abbrev pub erase_start : Bytes → Bytes
erase_start [] = []
erase_start (c ∷ cs) = let rest = erase_start cs in if is_trim_space c then rest else c ∷ cs

abbrev pub trim : Bytes → Bytes
trim s = erase_start (erase_end s)

-- The description: space, tab, line feed, vertical tab and carriage return are blank, and the blanks
-- in front are dropped of the text in both directions.
abbrev pub blanks : Bytes
blanks = 32 ∷ 9 ∷ 10 ∷ 11 ∷ 13 ∷ []

abbrev pub among : ℕ → Bytes → Bool
among c [] = false
among c (d ∷ ds) = (c == d) || among c ds

abbrev pub drop_blanks : Bytes → Bytes
drop_blanks [] = []
drop_blanks (c ∷ cs) = let rest = drop_blanks cs in if among c blanks then rest else c ∷ cs

abbrev pub reverse : Bytes → Bytes
reverse [] = []
reverse (c ∷ cs) = reverse cs ++ c ∷ []

abbrev pub strip : Bytes → Bytes
strip s = drop_blanks (reverse (drop_blanks (reverse s)))

is_trim_space_lem : (c : ℕ) → is_trim_space c ≡ among c blanks
is_trim_space_lem c = ground arith

erase_start_lem : (s : Bytes) → erase_start s ≡ drop_blanks s
erase_start_lem [] = refl
erase_start_lem (c ∷ cs) = ground (arith, erase_start_lem cs, is_trim_space_lem c)

-- A text without blanks in front, with one more byte behind it.
abbrev with_last : Bytes → ℕ → Bytes
with_last [] c = if among c blanks then [] else c ∷ []
with_last (d ∷ ds) c = (d ∷ ds) ++ c ∷ []

drop_blanks-append : (s : Bytes) (c : ℕ) → drop_blanks (s ++ c ∷ []) ≡ with_last (drop_blanks s) c
drop_blanks-append [] c = refl
drop_blanks-append (d ∷ ds) c = ground (arith, drop_blanks-append ds c)

reverse-append : (s : Bytes) (c : ℕ) → reverse (s ++ c ∷ []) ≡ c ∷ reverse s
reverse-append [] c = refl
reverse-append (d ∷ ds) c = ap (λ x. x ++ d ∷ []) (reverse-append ds c)

-- A byte in front of what `erase_end` leaves.
abbrev with_first : ℕ → Bytes → Bytes
with_first c [] = if is_trim_space c then [] else c ∷ []
with_first c (d ∷ ds) = c ∷ d ∷ ds

with_first-append : (c : ℕ) (s : Bytes) (d : ℕ) → with_first c (s ++ d ∷ []) ≡ c ∷ (s ++ d ∷ [])
with_first-append c [] d = refl
with_first-append c (e ∷ es) d = refl

erase_end-first : (c : ℕ) (cs : Bytes) → erase_end (c ∷ cs) ≡ with_first c (erase_end cs)
erase_end-first c cs = go (erase_end cs)
  where
    go :
        (rest : Bytes)
        → (elim rest as (λ r. Bytes) [
          | [] ↦ if is_trim_space c then [] else c ∷ []
          | d ∷ ds ↦ c ∷ d ∷ ds
        ])
          ≡ with_first c rest
    go [] = refl
    go (d ∷ ds) = refl

with_first-reverse : (c : ℕ) (s : Bytes) → with_first c (reverse s) ≡ reverse (with_last s c)
with_first-reverse c [] = ground (arith, is_trim_space_lem c)
with_first-reverse c (d ∷ ds) = with_first-append c (reverse ds) d ∙ sym (reverse-append (d ∷ ds) c)

erase_end_lem : (s : Bytes) → erase_end s ≡ reverse (drop_blanks (reverse s))
erase_end_lem [] = refl
erase_end_lem (c ∷ cs) =
    erase_end-first c cs
    ∙ ap (with_first c) (erase_end_lem cs)
    ∙ with_first-reverse c (drop_blanks (reverse cs))
    ∙ ap reverse (sym (drop_blanks-append (reverse cs) c))

pub trim_lem : (s : Bytes) → trim s ≡ strip s
trim_lem s = erase_start_lem (erase_end s) ∙ ap drop_blanks (erase_end_lem s)
