-- ===== src/Kbuffer.antt =====
-- The byte queue of src/dep/kbuffer.c: a doubly linked list of chunks. An address is a number with
-- 0 for NULL, and `chunks` says what stands at an address that malloc has given out. A chunk's own
-- `data` block is the field of that name. An int is its 32-bit pattern.
-- `fresh` is what malloc returns, and a load through an address that holds no chunk is a fault.
pub mod Queue
pub mod Seg
pub mod Add
pub mod Free
pub mod Drain
mod Tests
use coconut.Base.{
  ℕ, zero, suc, ◌+◌, ◌-◌, ◌%◌, Bool, true, false, not, List, [], ◌∷◌, Option, none, some, Bytes,
  length, take, drop, ltb, leb, ◌==◌, if◌then◌else◌, u32_mod, int_lt, Result, ok, fault, M, ◌>>=◌,
  ◌>>◌, pure, gets, modify,
}

abbrev pub null : ℕ
null = 0

-- `kbuffer_chunk`
pub record Chunk : Type 0 where
  pub data_block : Bytes
  pub size : ℕ
  pub pt : ℕ
  pub prev : ℕ
  pub next : ℕ

abbrev pub Store : Type 0
Store = ℕ → Option Chunk

pub record Kbuffer : Type 0 where
  pub size : ℕ
  pub head : ℕ
  pub tail : ℕ
  pub chunks : Store

-- `kbuffer_new`
abbrev pub make : Kbuffer
make = record { size = 0; head = null; tail = null; chunks = λ a. none }

unfoldable pub write : Store → ℕ → Option Chunk → Store
write h p c a = if a == p then c else h a

-- a - b of two ints.
abbrev pub int_sub : ℕ → ℕ → ℕ
int_sub a b = (a + u32_mod - b) % u32_mod

abbrev pub loaded : Option Chunk → M Kbuffer Chunk
loaded none k = (fault, k)
loaded (some c) k = (ok c, k)

-- `*chunk`
unfoldable pub load : ℕ → M Kbuffer Chunk
load p k = if p == null then (fault, k) else loaded (k.chunks p) k

abbrev pub store : ℕ → Option Chunk → M Kbuffer (Unit {0})
store p c = modify (λ k. record k { chunks = write k.chunks p c })

unfoldable pub set_next : ℕ → ℕ → M Kbuffer (Unit {0})
set_next p q = do c ← load p; store p (some (record c { next = q }))

unfoldable pub set_prev : ℕ → ℕ → M Kbuffer (Unit {0})
set_prev p q = do c ← load p; store p (some (record c { prev = q }))

abbrev pub unless_null : ℕ → M Kbuffer (Unit {0}) → M Kbuffer (Unit {0})
unless_null p m = if p == null then pure tt else m

-- `_kbuffer_chuck_free`
unfoldable pub chunk_free : ℕ → M Kbuffer ℕ
chunk_free p = do
  c ← load p
  unless_null c.prev (set_next c.prev c.next)
  unless_null c.next (set_prev c.next c.prev)
  modify (λ k. record k { tail = if k.tail == p then c.prev else k.tail })
  modify (λ k. record k { head = if k.head == p then c.next else k.head })
  modify (λ k. record k { size = int_sub k.size (int_sub c.size c.pt) })
  store p none
  pure c.next

-- `_kbuffer_chuck_remove`
unfoldable pub chunk_remove : ℕ → ℕ → M Kbuffer (Unit {0})
chunk_remove p size = do
  modify (λ k. record k { size = int_sub k.size size })
  c ← load p
  store p (some (record c { pt = (c.pt + size) % u32_mod }))

-- The loop of `kbuffer_free`, on fuel; it says whether that was enough.
unfoldable pub free_loop : ℕ → ℕ → M Kbuffer Bool
free_loop zero p = pure false
free_loop (suc fuel) p = if p == null then pure true else chunk_free p >>= free_loop fuel

unfoldable pub kbuffer_free : ℕ → M Kbuffer Bool
kbuffer_free fuel = do p ← gets (λ k. k.head); free_loop fuel p

-- A malloc that has failed is not noticed: the chunk is written through NULL.
unfoldable pub kbuffer_add : ℕ → Bytes → M Kbuffer ℕ
kbuffer_add fresh bytes = do
  t ← gets (λ k. k.tail)
  (λ k.
      if fresh == null
      then (fault, k)
      else store fresh
          (some (record {
            data_block = bytes;
            size = length bytes % u32_mod;
            pt = 0;
            prev = t;
            next = null;
          }))
          k)
  unless_null t (set_next t fresh)
  modify (λ k. record k { tail = fresh })
  modify (λ k. record k { head = if k.head == null then fresh else k.head })
  modify (λ k. record k { size = (k.size + length bytes) % u32_mod })
  pure (length bytes % u32_mod)

unfoldable pub get_size : Kbuffer → ℕ
get_size k = k.size

-- The bytes at the returned pointer, as many as the size that is set; without a chunk that is NULL.
unfoldable pub get_contiguous_data : M Kbuffer Bytes
get_contiguous_data = do
  p ← gets (λ k. k.head)
  if p == null
      then pure []
      else (do c ← load p; pure (take (int_sub c.size c.pt) (drop c.pt c.data_block)))

unfoldable pub count_loop : ℕ → ℕ → ℕ → M Kbuffer (Option ℕ)
count_loop zero p c = pure none
count_loop (suc fuel) p c =
    if p == null then pure (some c) else (do n ← load p; count_loop fuel n.next ((c + 1) % u32_mod))

unfoldable pub get_chunk_count : ℕ → M Kbuffer (Option ℕ)
get_chunk_count fuel = do p ← gets (λ k. k.head); count_loop fuel p 0

-- The loop of `kbuffer_drain`, on fuel; it says whether that was enough.
unfoldable pub drain_loop : ℕ → ℕ → ℕ → M Kbuffer Bool
drain_loop zero p size = pure false
drain_loop (suc fuel) p size = if p == null then pure true else (do
  c ← load p
  if int_lt size (int_sub c.size c.pt) then (do chunk_remove p size; pure true) else (do
    n ← chunk_free p
    if int_sub size (int_sub c.size c.pt) == 0
        then pure true
        else drain_loop fuel n (int_sub size (int_sub c.size c.pt))))

unfoldable pub kbuffer_drain : ℕ → ℕ → M Kbuffer Bool
kbuffer_drain fuel size = do p ← gets (λ k. k.head); drain_loop fuel p size
