-- ===== src/Tcp/Closing.antt =====
-- `closeAfterAllSent` of a connected socket with events: it sends what it holds, and then closes.
use mathlib.Core.Path.{subst}
use coconut.Base.{
  ℕ, zero, suc, ◌+◌, ◌-◌, ◌≤◌, ◌<◌, ◌%◌, ◌≡◌, refl, sym, ap, ◌∙◌, arith, Bool, true, false, ◌&&◌,
  List, [], ◌∷◌, ◌++◌, none, some, Bytes, length, take, ltb, if◌then◌else◌, append-nil,
  length-append, length-drop, int_sign, u32_mod, int_lt, ok,
}
use coconut.Kbuffer.Queue.{Queue, flatten, front, drain, flatten-drain}
use coconut.Tcp
use coconut.Tcp.Transfer
use coconut.Tcp.{TcpSocket, IoEvent, connected, disconnected, is_some, fd_of, socket_close}
use coconut.Tcp.Transfer.{Sent, took, refused}
use coconut.Tcp.Sending.{Sending, Io, writable, queue_of, after, play, sent, writable-took}
use coconut.Tcp.Order.{drain-wire}

take-nil : (n : ℕ) → take {A = ℕ} n [] ≡ []
take-nil zero = refl
take-nil (suc n) = refl

-- No chunk is empty, as `write` adds none.
abbrev pub filled : Queue → Bool
filled [] = true
filled (c ∷ q) = ltb 0 (length c) && filled q

filled-drain : (n : ℕ) (q : Queue) → filled q ≡ true → filled (drain n q) ≡ true
unfolding drain
filled-drain n [] f = refl
filled-drain n (c ∷ q) f = ground (arith, filled-drain (n - length c) q, length-drop n c)

-- n write events from the i-th on, of which the system takes as many bytes as `takes` says.
abbrev pub events : (ℕ → Bytes → ℕ) → ℕ → ℕ → TcpSocket → List Io
events takes i zero s = []
events takes i (suc n) s =
    let x = writable (took (takes i (front (queue_of s)))) in x ∷ events takes (suc i) n (after x s)

-- The socket t is s behind its close: disconnected, the handles gone, the descriptor closed once,
-- and its handler told once.
pub record Closed (s t : TcpSocket) : Type 0 where
  pub state : t.state ≡ disconnected
  pub bev : t.bev ≡ none
  pub ev_read : t.ev_read ≡ none
  pub ev_write : t.ev_write ≡ none
  pub closed : t.closed ≡ s.closed ++ fd_of s.ev_write
  pub calls : t.calls ≡ (if s.handler then s.calls ++ socket_close ∷ [] else s.calls)

module _ (s : TcpSocket) (q : Queue) (h : Sending true s q) where
  last_event :
      (answer : Sent) → length (flatten q) ≡ 0 → Closed s (Transfer.event_cb false true answer s).1
  unfolding Transfer.event_cb Transfer.on_write_event Tcp.close Tcp.fire_on_socket_close
      Tcp.close_handles Tcp.fire Tcp.mark_write
  last_event answer none_left =
      let t : int_lt 0 (length (flatten q) % u32_mod) ≡ false = ground arith in
      record {
        state = ground (arith, h.state, h.bev, h.ev_write, h.queue, h.expired, h.running, t);
        bev = ground (arith, h.state, h.bev, h.ev_write, h.queue, h.expired, h.running, t);
        ev_read = ground (arith, h.state, h.bev, h.ev_write, h.queue, h.expired, h.running, t);
        ev_write = ground (arith, h.state, h.bev, h.ev_write, h.queue, h.expired, h.running, t);
        closed = ground (
          arith,
          h.state,
          h.bev,
          h.ev_write,
          h.queue,
          h.expired,
          h.running,
          t,
          append-nil (s.closed ++ fd_of s.ev_write),
        );
        calls = ground (arith, h.state, h.bev, h.ev_write, h.queue, h.expired, h.running, t);
      }

module _ (takes : ℕ → Bytes → ℕ) (some_taken : (i : ℕ) (b : Bytes) → 0 < length b → 0 < takes i b)
    (at_most : (i : ℕ) (b : Bytes) → takes i b ≤ length b) where
  -- n write events and one more send the whole queue, and the last of them closes.
  Flushes : ℕ → TcpSocket → Queue → Type 0
  Flushes i s q =
      (n : ℕ) × (n ≤ length (flatten q))
      × (sent (events takes i (suc n) s) s ≡ flatten q)
      × Closed s (play (events takes i (suc n) s) s)

  flush :
      (m i : ℕ) (s : TcpSocket) (q : Queue)
      → Sending true s q
      → filled q ≡ true
      → length (flatten q) ≤ m
      → m < int_sign
      → Flushes i s q
  unfolding Flushes
  flush m i s [] h f le few =
      let same : queue_of s ≡ [] = ground (arith, h.queue) in
      let none_taken : take (takes i (front (queue_of s))) (front (queue_of s)) ≡ [] =
        rw same (take-nil (takes i [])) in
      (
        0,
        omega arith,
        ap (λ (l : Bytes). l ++ []) none_taken,
        last_event s [] h (took (takes i (front (queue_of s)))) refl,
      )
  flush zero i s (c ∷ q) h f le few =
      absurd (let e : 0 < length c = ground arith in omega (arith, length-append c (flatten q)))
  flush (suc m) i s (c ∷ q) h f le few =
      let full : 0 < length c = ground arith in
      let total = length-append c (flatten q) in
      let same : queue_of s ≡ c ∷ q = ground (arith, h.queue) in
      let k = takes i c in
      let kp = some_taken i c full in
      let km = at_most i c in
      let e = writable-took true s (c ∷ q) h (omega arith) k (omega (arith, total)) kp in
      let t = record s { write_kbuffer = some (drain k (c ∷ q)) } in
      let left : length (flatten (drain k (c ∷ q))) ≡ length c + length (flatten q) - k =
        ap length (flatten-drain k (c ∷ q))
        ∙ length-drop k (c ++ flatten q)
        ∙ ap (λ (z : ℕ). z - k) total in
      let (n, bound, all, done) =
        flush m (suc i) t (drain k (c ∷ q))
          (record {
            state = h.state;
            bev = h.bev;
            ev_write = h.ev_write;
            queue = refl;
            running = h.running;
            expired = h.expired;
          })
          (filled-drain k (c ∷ q) f) (omega (arith, left, total, kp)) (omega arith) in
      let go : (r : Queue) → r ≡ c ∷ q → after (writable (took (takes i (front r)))) s ≡ t =
        λ r z. ap (λ w. after (writable (took (takes i (front w)))) s) z ∙ ap (λ o. o.1) e in
      let at = go (queue_of s) same in
      (
        suc n,
        omega (arith, left, total, kp, bound),
        ap
              (λ w.
                take (takes i (front w)) (front w)
                ++ sent
                    (events takes (suc i) (suc n)
                      (after (writable (took (takes i (front (queue_of s))))) s))
                    (after (writable (took (takes i (front (queue_of s))))) s))
              same
            ∙ ap (λ w. take k c ++ sent (events takes (suc i) (suc n) w) w) at
            ∙ ap (λ (l : Bytes). take k c ++ l) all
            ∙ drain-wire k (c ∷ q) km,
        subst (λ w. Closed s (play (events takes (suc i) (suc n) w) w)) (sym at)
            (record {
              state = done.state;
              bev = done.bev;
              ev_read = done.ev_read;
              ev_write = done.ev_write;
              closed = done.closed;
              calls = done.calls;
            }),
      )

  asked :
      (s : TcpSocket) (q : Queue)
      → Sending false s q
      → is_some s.ev_read ≡ true
      → ((Transfer.close_after_all_sent s).0 ≡ ok tt)
        × Sending true (Transfer.close_after_all_sent s).1 q
  unfolding Transfer.close_after_all_sent Tcp.mark_read Tcp.mark_write
  asked s q h r = (
    ground (arith, h.bev, h.ev_write),
    record {
      state = ground (arith, h.state, h.bev, h.ev_write, h.queue);
      bev = ground (arith, h.state, h.bev, h.ev_write, h.queue);
      ev_write = ground (arith, h.state, h.bev, h.ev_write, h.queue);
      queue = ground (arith, h.state, h.bev, h.ev_write, h.queue);
      running = ground (arith, h.state, h.bev, h.ev_write, h.queue, h.running);
      expired = ground (arith, h.state, h.bev, h.ev_write, h.queue, h.expired);
    },
  )

  pub close_after_all_sent_lem :
      (s : TcpSocket) (q : Queue)
      → Sending false s q
      → is_some s.ev_read ≡ true
      → filled q ≡ true
      → length (flatten q) < int_sign
      → let t = (Transfer.close_after_all_sent s).1 in
        ((Transfer.close_after_all_sent s).0 ≡ ok tt)
        × ((n : ℕ) × (n ≤ length (flatten q))
            × (sent (events takes 0 (suc n) t) t ≡ flatten q)
            × Closed t (play (events takes 0 (suc n) t) t))
  unfolding Flushes
  close_after_all_sent_lem s q h r f few =
      let (done, h') = asked s q h r in
      (
        done,
        flush (length (flatten q)) 0 (Transfer.close_after_all_sent s).1 q h' f (omega arith) few,
      )
