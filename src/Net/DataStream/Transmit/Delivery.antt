-- ===== src/Net/DataStream/Transmit/Delivery.antt =====
-- What one round of the stream does to the queue and the pool, whatever the network answers.
use stabilizer.Prelude.{
  ℕ, zero, suc, ◌+◌, ◌≡◌, ◌<◌, refl, arith, ap, sym, subst, ◌∙◌, Bool, true, false, List, [], ◌∷◌,
  Option, none, some, length, drop, if◌then◌else◌, ◌||◌, Bool-cases, Option-cases, inl, inr,
}
use stabilizer.Net.DataStream.{Pool, Queue, StreamFrame, finish}
use stabilizer.Net.DataStream.Contract.{PoolLaws, QueueLaws}
use stabilizer.Net.DataStream.Transmit.{
  UdpStack, DataStream, StreamTarget, SendResult, sent, unaddressable, buffer_full, other_error,
  close_socket, close_held, close, connected, opened, open_socket, set_remote, flush, transmit,
  after_send, process, process_with, is_unspecified, holds, same_target,
}

tested : (a b : Bool) → a ≡ false → b ≡ false → (a || b) ≡ false
tested a b h k = ground arith

tested_unknown : (a b : Bool) → b ≡ true → (a || b) ≡ true
tested_unknown a b h = ground arith

module _ {pool : Pool} {queue : Queue StreamFrame} (udp : UdpStack) (pl : PoolLaws pool)
    (ql : QueueLaws queue) where
  open pl use {available}
  open ql use {view}

  -- The queue after a round: with a socket one frame is taken, and a socket that was opened in this
  -- round drops what was queued before.
  abbrev pub queue_after :
      Option udp.Socket → Option udp.Socket → List StreamFrame → List StreamFrame
  queue_after (some _) _ frames = drop 1 frames
  queue_after none none frames = frames
  queue_after none (some _) frames = []

  queue_after_opened :
      (a b : Option udp.Socket) (frames : List StreamFrame)
      → a ≡ none
      → holds pool queue udp b ≡ true
      → queue_after a b frames ≡ []
  queue_after_opened none (some socket) frames e h = refl
  queue_after_opened none none frames e h = cc
  queue_after_opened (some socket) b frames e h = cc

  queue_after_unopened :
      (a b : Option udp.Socket) (frames : List StreamFrame)
      → a ≡ none
      → holds pool queue udp b ≡ false
      → queue_after a b frames ≡ frames
  queue_after_unopened none none frames e h = refl
  queue_after_unopened none (some socket) frames e h = cc
  queue_after_unopened (some socket) b frames e h = cc

  queue_after_held :
      (a b : Option udp.Socket) (frames : List StreamFrame) (socket : udp.Socket)
      → a ≡ some socket
      → queue_after a b frames ≡ drop 1 frames
  queue_after_held (some socket) b frames _ e = refl
  queue_after_held none b frames _ e = cc

  abbrev pub stock : DataStream pool queue udp → ℕ
  stock s = available s.free + length (view s.queued)

  flush_lem :
      (fuel : ℕ) (frames : List StreamFrame) (s : DataStream pool queue udp)
      → view s.queued ≡ frames
      → length frames < fuel
      → (t : DataStream pool queue udp) × (flush pool queue udp fuel s ≡ some t)
        × (view t.queued ≡ [])
        × (stock t ≡ stock s)
        × (t.socket ≡ s.socket)
  unfolding flush
  flush_lem zero frames s e h = absurd (omega arith)
  flush_lem (suc fuel) [] s e h = (s, rw (ql.dequeue_none s.queued e, flush) refl, e, refl, refl)
  flush_lem (suc fuel) (frame ∷ frames) s e h =
      let (rest, taken, v) = ql.dequeue_some s.queued frame frames e in
      let (t, run, empty, same, socket) =
        flush_lem fuel frames (record s { queued = rest; free = pool.release s.free }) v
          (omega arith) in
      (
        t,
        rw (taken, flush) run,
        empty,
        omega (arith, same, ap length v, ap length e, pl.available-release s.free),
        socket,
      )

  -- A socket is always closed without an error, as the code assumes when it unwraps.
  module _ (closes : (socket : udp.Socket) (s : udp.State) → (udp.close socket s).1 ≡ true) where
    close_socket_lem :
        (socket : udp.Socket) (s : DataStream pool queue udp)
        → close_socket pool queue udp socket s
          ≡ some (record s { stack = (udp.close socket s.stack).0 })
    unfolding close_socket
    close_socket_lem socket s = rw (closes socket s.stack) refl

    -- What `process` leaves behind.
    abbrev pub Delivers : DataStream pool queue udp → Option (DataStream pool queue udp) → Type 0
    Delivers s result =
        (t : DataStream pool queue udp) × (result ≡ some t)
        × (view t.queued ≡ queue_after s.socket t.socket (view s.queued))
        × (stock t ≡ stock s)

    after_send_lem :
        (sent_to : udp.State × udp.Socket × SendResult) (s : DataStream pool queue udp)
        → (t : DataStream pool queue udp) × (after_send pool queue udp sent_to s ≡ some t)
          × (t.free ≡ s.free)
          × (t.queued ≡ s.queued)
    unfolding after_send
    after_send_lem (stack, socket, unaddressable) s =
        (_, close_socket_lem socket (record s { stack = stack; socket = none }), refl, refl)
    after_send_lem (stack, socket, sent) s = (_, refl, refl, refl)
    after_send_lem (stack, socket, buffer_full) s = (_, refl, refl, refl)
    after_send_lem (stack, socket, other_error) s = (_, refl, refl, refl)

    transmit_lem :
        (socket : udp.Socket) (frames : List StreamFrame) (s : DataStream pool queue udp)
        → view s.queued ≡ frames
        → (t : DataStream pool queue udp) × (transmit pool queue udp socket
              (queue.dequeue s.queued)
              s
            ≡ some t)
          × (view t.queued ≡ drop 1 frames)
          × (stock t ≡ stock s)
    unfolding transmit
    transmit_lem socket [] s e = (s, rw (ql.dequeue_none s.queued e) refl, e, refl)
    transmit_lem socket (frame ∷ frames) s e =
        let (rest, taken, v) = ql.dequeue_some s.queued frame frames e in
        let (t, run, free, queued) =
          after_send_lem (udp.send socket (finish frame).1 s.stack) (record s { queued = rest }) in
        (
          record t { free = pool.release t.free },
          rw (taken, transmit) (rw run refl),
          ap view queued ∙ v,
          omega (
            arith,
            pl.available-release t.free,
            ap available free,
            ap (λ q. length (view q)) queued,
            ap length v,
            ap length e,
          ),
        )

    -- An attempt to open returns, keeps the pool and the queue, and tells whether a socket is held.
    abbrev Opens : DataStream pool queue udp → Option (DataStream pool queue udp × Bool) → Type 0
    Opens s result =
        (t : DataStream pool queue udp) × (done : Bool) × (result ≡ some (t, done))
        × (t.free ≡ s.free)
        × (t.queued ≡ s.queued)
        × (holds pool queue udp t.socket ≡ done)

    connected_lem :
        (remote : StreamTarget) (answer : udp.State × udp.Socket × Bool)
        (s : DataStream pool queue udp)
        → s.socket ≡ none
        → Opens s (connected pool queue udp remote answer s)
    unfolding connected
    connected_lem remote (stack, socket, true) s empty = (_, true, refl, refl, refl, refl)
    connected_lem remote (stack, socket, false) s empty = (
      record s { stack = (udp.close socket stack).0 },
      false,
      rw (close_socket_lem socket (record s { stack = stack })) refl,
      refl,
      refl,
      ap (holds pool queue udp) empty,
    )

    opened_lem :
        (answer : udp.State × Option udp.Socket) (s : DataStream pool queue udp)
        → s.socket ≡ none
        → Opens s (opened pool queue udp answer s)
    unfolding opened
    opened_lem (stack, none) s empty =
        (record s { stack = stack }, false, refl, refl, refl, ap (holds pool queue udp) empty)
    opened_lem (stack, some socket) s empty =
        connected_lem s.remote (udp.connect socket s.remote stack) (record s { stack = stack })
          empty

    open_socket_lem :
        (s : DataStream pool queue udp) → s.socket ≡ none → Opens s (open_socket pool queue udp s)
    unfolding open_socket
    open_socket_lem s empty = elim (Bool-cases (is_unspecified s.remote.ip)) [
      | inl unknown ↦ (
        s,
        false,
        rw (tested_unknown (holds pool queue udp s.socket) _ unknown) refl,
        refl,
        refl,
        ap (holds pool queue udp) empty,
      )
      | inr known ↦
          let (t, done, run, free, queued, held) = opened_lem (udp.socket s.stack) s empty in
          (
            t,
            done,
            rw (tested (holds pool queue udp s.socket) _ (ap (holds pool queue udp) empty) known)
                run,
            free,
            queued,
            held,
          )
    ]

    by_opened :
        (fuel : ℕ) (s : DataStream pool queue udp) (done : Bool) (t : DataStream pool queue udp)
        → s.socket ≡ none
        → length (view s.queued) < fuel
        → t.free ≡ s.free
        → t.queued ≡ s.queued
        → holds pool queue udp t.socket ≡ done
        → Delivers s (if done then flush pool queue udp fuel t else some t)
    by_opened fuel s true t empty enough free queued held =
        let (u, run, gone, same, socket) =
          flush_lem fuel (view s.queued) t (ap view queued) enough in
        (
          u,
          run,
          gone
              ∙ sym (
                  queue_after_opened s.socket u.socket _ empty
                    (ap (holds pool queue udp) socket ∙ held)),
          omega (arith, same, ap available free, ap (λ q. length (view q)) queued),
        )
    by_opened fuel s false t empty enough free queued held = (
      t,
      refl,
      ap view queued ∙ sym (queue_after_unopened s.socket t.socket _ empty held),
      omega (arith, ap available free, ap (λ q. length (view q)) queued),
    )

    process_with-none :
        (fuel : ℕ) (s : DataStream pool queue udp)
        → s.socket ≡ none
        → length (view s.queued) < fuel
        → Delivers s (process_with pool queue udp fuel none s)
    unfolding process_with
    process_with-none fuel s empty enough =
        let (t, done, run, free, queued, held) = open_socket_lem s empty in
        rw run (by_opened fuel s done t empty enough free queued held)

    -- Over a pool and a queue with their laws and a network whose close never fails, with more
    -- fuel than queued frames: a round of the stream returns; if it had a socket it has taken the
    -- oldest frame from the queue, if it opened one the queue is empty, otherwise the queue is
    -- unchanged; and free buffers and queued frames together are as many as before.
    pub process-Delivers :
        (fuel : ℕ) (s : DataStream pool queue udp)
        → length (view s.queued) < fuel
        → Delivers s (process pool queue udp fuel s)
    unfolding process
    process-Delivers fuel s enough = elim (Option-cases s.socket) [
      | inl empty ↦
          subst (λ o. Delivers s (process_with pool queue udp fuel o s)) (sym empty)
            (process_with-none fuel s empty enough)
      | inr (socket, held) ↦
          let (t, run, left, same) = transmit_lem socket (view s.queued) s refl in
          subst (λ o. Delivers s (process_with pool queue udp fuel o s)) (sym held)
            (
              t,
              run,
              left ∙ sym (queue_after_held s.socket t.socket (view s.queued) socket held),
              same,
            )
    ]

    close_lem :
        (held : Option udp.Socket) (s : DataStream pool queue udp)
        → s.socket ≡ held
        → (t : DataStream pool queue udp) × (close_held pool queue udp held s ≡ some t)
          × (t.free ≡ s.free)
          × (t.queued ≡ s.queued)
          × (t.socket ≡ none)
    unfolding close_held
    close_lem none s e = (s, refl, refl, refl, e)
    close_lem (some socket) s e =
        (_, close_socket_lem socket (record s { socket = none }), refl, refl, refl)

    -- A new remote closes the socket; the same remote keeps it. The queue and the pool are kept.
    pub set_remote_lem :
        (remote : StreamTarget) (s : DataStream pool queue udp)
        → (t : DataStream pool queue udp) × (set_remote pool queue udp remote s ≡ some t)
          × (t.free ≡ s.free)
          × (t.queued ≡ s.queued)
          × (t.remote ≡ remote)
          × (t.socket ≡ (if same_target remote s.remote then s.socket else none))
    unfolding set_remote close
    set_remote_lem remote s = elim (Bool-cases (same_target remote s.remote)) [
      | inl same ↦ (record s { remote = remote }, rw same refl, refl, refl, refl, rw same refl)
      | inr new ↦
          let (t, run, free, queued, gone) = close_lem s.socket s refl in
          (record t { remote = remote }, rw new (rw run refl), free, queued, refl, rw new gone)
    ]
