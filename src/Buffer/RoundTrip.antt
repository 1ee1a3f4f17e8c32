-- ===== src/Buffer/RoundTrip.antt =====
-- What the integer and string methods write, and that the reading methods take it back.
-- `Encodes` and `Decodes` state a method by the bytes that it appends or steps over, so that the
-- parts of a method compose.
use mathlib.Core.List.{reverse}
use coconut.Base.{
  ℕ, ◌+◌, ◌*◌, ◌/◌, ◌%◌, ◌<◌, ◌≡◌, refl, sym, ap, ◌∙◌, arith, Bool, true, false, [], ◌++◌, Bytes,
  length, take, length-append, length-drop, drop-drop, take-append, drop-append, drop-append_le,
  append_assoc, u8_mod, u16_mod, u32_mod, u64_mod, int_sign, int_of_size, ok, throws,
  protocol_exception, M, ◌>>=◌, bind-ok, pure,
}
use coconut.Buffer.{BufferedTransport, read, write}
use coconut.Buffer.Codec.{
  bytes_of, value_of, exactly, htonl, net16, net32, net64, host64, read_exactly, read_int64,
  read_int32, read_int16, read_int8,
}
use coconut.Buffer.Valid.{IsValid, remaining, read_enough, read_short}

abbrev pub advance : ℕ → BufferedTransport → BufferedTransport
advance k b = record b { read_pos = b.read_pos + k }

abbrev pub append : Bytes → BufferedTransport → BufferedTransport
append d b = record b { buffer = b.buffer ++ d }

-- The call appends `e` and returns `a`.
abbrev pub Encodes : {A : Type 0} → M BufferedTransport A → Bytes → A → Type 0
Encodes m e a = (b : BufferedTransport) → m b ≡ (ok a, append e b)

-- On a valid buffer whose unread bytes begin with `e` the call steps over `e` and returns `a`.
abbrev pub Decodes : {A : Type 0} → M BufferedTransport A → Bytes → A → Type 0
Decodes m e a =
    (b : BufferedTransport) (rest : Bytes)
    → IsValid b
    → remaining b ≡ e ++ rest
    → m b ≡ (ok a, advance (length e) b)

pub advance-IsValid :
    (b : BufferedTransport) (e rest : Bytes)
    → IsValid b
    → remaining b ≡ e ++ rest
    → IsValid (advance (length e) b) × (remaining (advance (length e) b) ≡ rest)
advance-IsValid b e rest v h =
    let n : length (remaining b) ≡ length e + length rest = ap length h ∙ length-append e rest in
    (
      omega (arith, length-drop b.read_pos b.buffer),
      sym (drop-drop (length e) b.read_pos b.buffer) ∙ rw h (drop-append (length e) e rest refl),
    )

module _ {A B : Type 0} (m : M BufferedTransport A) (f : A → M BufferedTransport B)
    (e d : Bytes) where
  pub Encodes-bind :
      (a : A) (c : B) → Encodes m e a → Encodes (f a) d c → Encodes (m >>= f) (e ++ d) c
  Encodes-bind a c h k b = bind-ok m f (h b) ∙ k (append e b) ∙ rw append_assoc

  pub Decodes-bind :
      (a : A) (c : B) → Decodes m e a → Decodes (f a) d c → Decodes (m >>= f) (e ++ d) c
  Decodes-bind a c h k b rest v r =
      let r' : remaining b ≡ e ++ (d ++ rest) = r ∙ append_assoc e d rest in
      let (v', q) = advance-IsValid b e (d ++ rest) v r' in
      let n : b.read_pos + length e + length d ≡ b.read_pos + length (e ++ d) =
        omega (arith, length-append e d) in
      bind-ok m f (h b (d ++ rest) v r') ∙ k (advance (length e) b) rest v' q ∙ rw n

pub Encodes-write : (d : Bytes) → Encodes (write d) d (int_of_size (length d))
unfolding write
Encodes-write d b = refl

exactly_lem : (n : ℕ) (e : Bytes) (b : BufferedTransport) → length e ≡ n → exactly n e b ≡ (ok e, b)
exactly_lem n e b l = ground arith

exactly_short :
    (n : ℕ) (e : Bytes) (b : BufferedTransport)
    → length e < n
    → n < u32_mod
    → exactly n e b ≡ (throws protocol_exception, b)
exactly_short n e b l h = ground arith

pub Decodes-read_exactly : (n : ℕ) (e : Bytes) → length e ≡ n → Decodes (read_exactly n) e e
unfolding read_exactly
Decodes-read_exactly n e l b rest v r =
    let (v', q) = advance-IsValid b e rest v r in
    let t : take n (remaining b) ≡ e = rw r (take-append n e rest l) in
    bind-ok (read n) (exactly n) (read_enough n b v (omega arith))
    ∙ ap (λ (x : Bytes). exactly n x (advance n b)) t
    ∙ exactly_lem n e (advance n b) l
    ∙ rw l

-- Fewer bytes than asked for: they are consumed, and the call throws.
pub read_exactly_short :
    (n : ℕ) (b : BufferedTransport)
    → IsValid b
    → length (remaining b) < n
    → n < u32_mod
    → read_exactly n b ≡ (throws protocol_exception, record b { read_pos = length b.buffer })
unfolding read_exactly
read_exactly_short n b v few h =
    bind-ok (read n) (exactly n) (read_short n b v (omega (arith, length-drop b.read_pos b.buffer)))
    ∙ exactly_short n (remaining b) (record b { read_pos = length b.buffer }) few h

-- What the integer methods append.
abbrev pub encode32 : Bool → ℕ → Bytes
encode32 le v = bytes_of 4 (net32 le v)

abbrev pub encode16 : Bool → ℕ → Bytes
encode16 le v = bytes_of 2 (net16 le v)

abbrev pub encode64 : Bool → ℕ → Bytes
encode64 le v = bytes_of 8 (net64 le v)

value_of-bytes_of8 : (x : ℕ) → x < u64_mod → value_of (bytes_of 8 x) ≡ x
value_of-bytes_of8 x h = omega arith

value_of-bytes_of4 : (x : ℕ) → x < u32_mod → value_of (bytes_of 4 x) ≡ x
value_of-bytes_of4 x h = omega arith

htonl_bound : (v : ℕ) → htonl v < u32_mod
htonl_bound v = omega arith

htonl-htonl : (v : ℕ) → v < u32_mod → htonl (htonl v) ≡ v
htonl-htonl v h = omega arith

decode32 : (le : Bool) (v : ℕ) → v < u32_mod → net32 le (value_of (encode32 le v)) ≡ v
decode32 true v h = value_of-bytes_of4 v h
decode32 false v h = ap htonl (value_of-bytes_of4 (htonl v) (htonl_bound v)) ∙ htonl-htonl v h

decode16 : (le : Bool) (v : ℕ) → v < u16_mod → net16 le (value_of (encode16 le v)) ≡ v
decode16 le v h = ground arith

htonl_mod : (v : ℕ) → htonl (v % u32_mod) ≡ htonl v
htonl_mod v = ap (λ (x : ℕ). value_of (reverse (bytes_of 4 x))) (omega arith)

halves :
    (a b v : ℕ)
    → a < u32_mod
    → b < u32_mod
    → (htonl a ≡ v % u32_mod)
    → (htonl b ≡ v / u32_mod)
    → htonl ((a * u32_mod + b) / u32_mod) + htonl (a * u32_mod + b) * u32_mod ≡ v
halves a b v ha hb la lb =
    let p : (a * u32_mod + b) / u32_mod ≡ a = omega arith in
    let q : (a * u32_mod + b) % u32_mod ≡ b = omega arith in
    rw (p, la, ← htonl_mod (a * u32_mod + b), q, lb) (omega arith)

decode64 : (le : Bool) (v : ℕ) → v < u64_mod → host64 le (value_of (encode64 le v)) ≡ v
decode64 true v h = value_of-bytes_of8 v h
decode64 false v h =
    let a = htonl v in
    let b = htonl (v / u32_mod) in
    let la : htonl (htonl v) ≡ v % u32_mod =
      ap htonl (sym (htonl_mod v)) ∙ htonl-htonl (v % u32_mod) (omega arith) in
    let lb : htonl (htonl (v / u32_mod)) ≡ v / u32_mod = htonl-htonl (v / u32_mod) (omega arith) in
    let n : value_of (bytes_of 8 (a * u32_mod + b)) ≡ a * u32_mod + b =
      value_of-bytes_of8 (a * u32_mod + b)
        (omega (arith, htonl_bound v, htonl_bound (v / u32_mod))) in
    ap (host64 false) n ∙ halves a b v (htonl_bound v) (htonl_bound (v / u32_mod)) la lb

-- A reading method that takes `size` bytes and converts them.
Decodes-converted :
    (size : ℕ) (convert : ℕ → ℕ) (x v : ℕ)
    → length (bytes_of size x) ≡ size
    → convert (value_of (bytes_of size x)) ≡ v
    → Decodes (read_exactly size >>= λ bytes. pure (convert (value_of bytes))) (bytes_of size x) v
Decodes-converted size convert x v l c b rest valid r =
    bind-ok (read_exactly size) (λ bytes. pure (convert (value_of bytes)))
      (Decodes-read_exactly size (bytes_of size x) l b rest valid r)
    ∙ ap (λ (n : ℕ). pure n (advance (length (bytes_of size x)) b)) c

pub Decodes-read_int64 :
    (le : Bool) (v : ℕ) → v < u64_mod → Decodes (read_int64 le) (encode64 le v) v
unfolding read_int64
Decodes-read_int64 le v h = Decodes-converted 8 (host64 le) (net64 le v) v refl (decode64 le v h)

pub Decodes-read_int32 :
    (le : Bool) (v : ℕ) → v < u32_mod → Decodes (read_int32 le) (encode32 le v) v
unfolding read_int32
Decodes-read_int32 le v h = Decodes-converted 4 (net32 le) (net32 le v) v refl (decode32 le v h)

pub Decodes-read_int16 :
    (le : Bool) (v : ℕ) → v < u16_mod → Decodes (read_int16 le) (encode16 le v) v
unfolding read_int16
Decodes-read_int16 le v h = Decodes-converted 2 (net16 le) (net16 le v) v refl (decode16 le v h)

pub Decodes-read_int8 : (v : ℕ) → v < u8_mod → Decodes read_int8 (bytes_of 1 v) v
unfolding read_int8
Decodes-read_int8 v h = Decodes-converted 1 (λ n. n) v v refl (omega arith)

-- What is written on a buffer that has been read to its end is what is read next.
pub round_trip :
    {A C : Type 0} (w : M BufferedTransport A) (r : M BufferedTransport C) (e rest : Bytes) (a : A)
    (c : C) (b : BufferedTransport)
    → Encodes w (e ++ rest) a
    → Decodes r e c
    → IsValid b
    → remaining b ≡ []
    → length b.buffer + length (e ++ rest) < int_sign
    → r (w b).1 ≡ (ok c, advance (length e) (append (e ++ rest) b))
round_trip w r e rest a c b enc dec v empty room = rw (enc b) (
    dec (append (e ++ rest) b) rest (omega (arith, length-append b.buffer (e ++ rest))) (
      drop-append_le b.read_pos b.buffer (e ++ rest) v.inside
      ∙ ap (λ (x : Bytes). x ++ (e ++ rest)) empty))
