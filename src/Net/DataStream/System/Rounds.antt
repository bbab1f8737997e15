-- ===== src/Net/DataStream/System/Rounds.antt =====
-- What is carried to the wire, and a round of the stream.
use stabilizer.Prelude.{
  ℕ, ◌+◌, ◌≡◌, ◌<◌, refl, arith, ap, ap₂, sym, ◌∙◌, subst, true, List, [], ◌∷◌, ◌++◌, Option, none,
  some, length, drop, u32, append_assoc, append-nil, length-append, Option-cases, inl, inr,
}
use mathlib.Core.Option.{some-injective}
use stabilizer.Net.DataStream.{Cell, Pool, Queue, StreamFrame, finish}
use stabilizer.Net.DataStream.Contract.{PoolLaws, QueueLaws}
use stabilizer.Net.DataStream.Frames.{finish-Collects}
use stabilizer.Net.DataStream.Pieces.{
  Piece, flat, packet, packets, Tracks, take_oldest, lose_queued, flat-append, packets-append,
}
use stabilizer.Net.DataStream.Transmit.{UdpStack, DataStream, process}
use stabilizer.Net.DataStream.Transmit.Delivery.{queue_after, process-Delivers}
use stabilizer.Net.DataStream.Transmit.Wire.{
  WireLog, Logged, process_unopened_log, process_idle_log, process_sent_log,
}
use stabilizer.Net.DataStream.System.{System}

module _ {pool : Pool} {queue : Queue StreamFrame} {udp : UdpStack} (pl : PoolLaws pool)
    (ql : QueueLaws queue)
    (closes : (socket : udp.Socket) (s : udp.State) → (udp.close socket s).1 ≡ true)
    (wire : WireLog udp) where
  open ql use {view}
  open wire use {log}

  -- The packets that were sent, then the frames and the batches that came after them.
  pub record Carries (format : ℕ) (batches : List (List ℕ)) (s : System pool queue udp)
      : Type 0 where
    pub carried : List Piece
    pub pending : List (List ℕ)
    pub whole : batches ≡ flat carried ++ pending
    pub on_wire : log s.stream.stack ≡ packets format 0 carried
    pub tracks : Tracks format (length (flat carried)) pending s.generator (view s.stream.queued)

  -- The stream has changed, with the same log and the same queue.
  pub same_wire :
      {format : ℕ} {batches : List (List ℕ)} {s : System pool queue udp}
      (t : DataStream pool queue udp)
      → log t.stack ≡ log s.stream.stack
      → view t.queued ≡ view s.stream.queued
      → Carries format batches s
      → Carries format batches (record s { stream = t })
  same_wire {format} {batches} {s} t l q c = record {
    carried = c.carried;
    pending = c.pending;
    whole = c.whole;
    on_wire = l ∙ c.on_wire;
    tracks = subst (Tracks format (length (flat c.carried)) c.pending s.generator) (sym q) c.tracks;
  }

  emptied_wire :
      {format : ℕ} {batches : List (List ℕ)} {s : System pool queue udp}
      (t : DataStream pool queue udp)
      → log t.stack ≡ log s.stream.stack
      → view t.queued ≡ []
      → Carries format batches s
      → Carries format batches (record s { stream = t })
  emptied_wire {format} {batches} {s} t l q c = record {
    carried = c.carried;
    pending = c.pending;
    whole = c.whole;
    on_wire = l ∙ c.on_wire;
    tracks =
        subst (Tracks format (length (flat c.carried)) c.pending s.generator) (sym q)
          (lose_queued c.tracks);
  }

  whole_sent :
      (batches : List (List ℕ)) (carried : List Piece) (p : Piece) (pending tail : List (List ℕ))
      → batches ≡ flat carried ++ pending
      → pending ≡ p.lost ++ (p.kept ++ tail)
      → batches ≡ flat (carried ++ p ∷ []) ++ tail
  whole_sent batches carried p pending tail e e' =
      rw (e, e') (simp (flat-append, append_assoc, append-nil))

  length-sent :
      (carried : List Piece) (p : Piece)
      → length (flat (carried ++ p ∷ [])) ≡ length (flat carried) + length p.lost + length p.kept
  length-sent carried p = omega (
    arith,
    ap length (flat-append carried (p ∷ [])),
    length-append (flat carried) (p.lost ++ (p.kept ++ [])),
    length-append p.lost (p.kept ++ []),
    length-append p.kept [],
  )

  packets_sent :
      (format : ℕ) (carried : List Piece) (p : Piece)
      → packets format 0 (carried ++ p ∷ [])
        ≡ packets format 0 carried
          ++ packet format (u32 (length (flat carried) + length p.lost)) p.kept ∷ []
  packets_sent format carried p =
      packets-append format 0 carried p
      ∙ ap
          (λ (k : ℕ).
            packets format 0 carried ++ packet format (u32 (k + length p.lost)) p.kept ∷ [])
          (omega arith)

  -- The oldest frame was sent.
  sent_wire :
      {format : ℕ} {batches : List (List ℕ)} {s : System pool queue udp}
      (t : DataStream pool queue udp) (frame : StreamFrame) (frames : List StreamFrame)
      → log t.stack ≡ log s.stream.stack ++ (finish frame).1 ∷ []
      → view s.stream.queued ≡ frame ∷ frames
      → view t.queued ≡ frames
      → Carries format batches s
      → Carries format batches (record s { stream = t })
  sent_wire {format} {batches} {s} t frame frames l q q' c =
      let k =
        take_oldest
          (subst (Tracks format (length (flat c.carried)) c.pending s.generator) q c.tracks) in
      record {
        carried = c.carried ++ k.piece ∷ [];
        pending = k.tail;
        whole = whole_sent batches c.carried k.piece c.pending k.tail c.whole k.whole;
        on_wire =
            l
            ∙ (ap₂ (λ (w : List (List Cell)) (p : List Cell). w ++ p ∷ []) c.on_wire
                  (finish-Collects k.collects)
                ∙ sym (packets_sent format c.carried k.piece));
        tracks =
            subst (Tracks format (length (flat (c.carried ++ k.piece ∷ []))) k.tail s.generator)
              (sym q')
              (subst (λ n. Tracks format n k.tail s.generator frames)
                (sym (length-sent c.carried k.piece)) k.tracks);
      }

  pub log_some :
      (l : List (List Cell)) (o : Option (DataStream pool queue udp))
      (t : DataStream pool queue udp)
      → Logged wire l o
      → o ≡ some t
      → log t.stack ≡ l
  log_some l o t h e = subst (Logged wire l) e h

  -- A round without a socket.
  round_unopened :
      {format : ℕ} {batches : List (List ℕ)} {s : System pool queue udp}
      (t : DataStream pool queue udp) (a b : Option udp.Socket)
      → a ≡ none
      → log t.stack ≡ log s.stream.stack
      → view t.queued ≡ queue_after udp pl ql a b (view s.stream.queued)
      → Carries format batches s
      → Carries format batches (record s { stream = t })
  round_unopened t none none e l q c = same_wire t l q c
  round_unopened t none (some socket) e l q c = emptied_wire t l q c
  round_unopened t (some socket) b e l q c = cc

  -- A round with a socket, by the queue.
  round_opened :
      {format : ℕ} {batches : List (List ℕ)} {s : System pool queue udp} (fuel : ℕ)
      (t : DataStream pool queue udp) (socket : udp.Socket) (frames : List StreamFrame)
      → s.stream.socket ≡ some socket
      → process pool queue udp fuel s.stream ≡ some t
      → view s.stream.queued ≡ frames
      → view t.queued ≡ drop 1 frames
      → Carries format batches s
      → Carries format batches (record s { stream = t })
  round_opened {s = s} fuel t socket [] e run q q' c =
      let idle = process_idle_log wire fuel s.stream socket e (ql.dequeue_none _ q) in
      same_wire t (log_some _ _ t idle run) (q' ∙ sym q) c
  round_opened {s = s} fuel t socket (frame ∷ frames) e run q q' c =
      let (rest, taken, _) = ql.dequeue_some _ frame frames q in
      let sends = process_sent_log wire fuel s.stream socket frame rest e taken in
      sent_wire t frame frames (log_some _ _ t sends run) q q' c

  pub round_Carries :
      {format : ℕ} {batches : List (List ℕ)} {s : System pool queue udp} (fuel : ℕ)
      (t : DataStream pool queue udp)
      → length (view s.stream.queued) < fuel
      → process pool queue udp fuel s.stream ≡ some t
      → Carries format batches s
      → Carries format batches (record s { stream = t })
  round_Carries {s = s} fuel t enough run c =
      let (u, run', left, _) = process-Delivers udp pl ql closes fuel s.stream enough in
      let same : u ≡ t = some-injective u t (sym run' ∙ run) in
      let q : view t.queued
          ≡ queue_after udp pl ql s.stream.socket t.socket (view s.stream.queued) =
        subst
          (λ (v : DataStream pool queue udp).
            view v.queued ≡ queue_after udp pl ql s.stream.socket v.socket (view s.stream.queued))
          same left in
      elim (Option-cases s.stream.socket) [
        | inl empty ↦
            round_unopened t s.stream.socket t.socket empty
              (log_some _ _ t (process_unopened_log wire fuel s.stream empty) run) q c
        | inr (socket, held) ↦
            round_opened fuel t socket (view s.stream.queued) held run refl
              (subst (λ o. view t.queued ≡ queue_after udp pl ql o t.socket (view s.stream.queued))
                held q)
              c
      ]
