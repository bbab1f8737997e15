-- ===== src/Net/DataStream/System/Carries.antt =====
-- The packets on the wire are runs of the history of batches, in order.
use stabilizer.Prelude.{
  ℕ, ◌+◌, ◌≡◌, ◌≤◌, refl, arith, ap, sym, ◌∙◌, subst, true, List, [], ◌∷◌, ◌++◌, some, length,
  append_assoc,
}
use mathlib.Core.Option.{some-injective}
use stabilizer.Net.DataStream.{
  Cell, Pool, Queue, StreamFrame, frame_size, header_size, FrameGenerator, new_generator, configure,
  finish,
}
use stabilizer.Net.DataStream.Contract.{PoolLaws, QueueLaws}
use stabilizer.Net.DataStream.Ownership.{Owns}
use stabilizer.Net.DataStream.Pieces.{Piece, flat, packets, Tracks}
use stabilizer.Net.DataStream.Tracking.{add-Tracks}
use stabilizer.Net.DataStream.Transmit.{UdpStack, DataStream}
use stabilizer.Net.DataStream.Transmit.Delivery.{set_remote_lem}
use stabilizer.Net.DataStream.Transmit.Wire.{WireLog, set_remote_log}
use stabilizer.Net.DataStream.System.{
  System, Step, batch, round, redirect, Reach, here, then, history, Sound, IsInitial, Reach-Sound,
}
use stabilizer.Net.DataStream.System.Rounds
use stabilizer.Net.DataStream.System.Rounds.{round_Carries, same_wire, log_some}

module _ {pool : Pool} {queue : Queue StreamFrame} {udp : UdpStack} (pl : PoolLaws pool)
    (ql : QueueLaws queue)
    (closes : (socket : udp.Socket) (s : udp.State) → (udp.close socket s).1 ≡ true)
    (wire : WireLog udp) where
  open ql use {view}
  open wire use {log}

  abbrev Carries : ℕ → List (List ℕ) → System pool queue udp → Type 0
  Carries = stabilizer.Net.DataStream.System.Rounds.Carries pl ql closes wire

  batch_Carries :
      {format : ℕ} {batches : List (List ℕ)} {s : System pool queue udp} (bytes : List ℕ)
      (h : FrameGenerator) (free : pool.State) (queued : queue.State) (c : Carries format batches s)
      → Tracks format (length (flat c.carried)) (c.pending ++ bytes ∷ []) h (view queued)
      → Carries format
          (batches ++ bytes ∷ [])
          (record { generator = h; stream = record (s.stream) { free = free; queued = queued } })
  batch_Carries bytes h free queued c t = record {
    carried = c.carried;
    pending = c.pending ++ bytes ∷ [];
    whole =
        ap (λ l. l ++ bytes ∷ []) c.whole ∙ append_assoc (flat c.carried) c.pending (bytes ∷ []);
    on_wire = c.on_wire;
    tracks = t;
  }

  Tracks-result :
      (format start : ℕ) (batches : List (List ℕ)) (x y : FrameGenerator × pool.State × queue.State)
      → some x ≡ some y
      → Tracks format start batches x.0 (view x.2)
      → Tracks format start batches y.0 (view y.2)
  Tracks-result format start batches x y e =
      subst
        (λ (z : FrameGenerator × pool.State × queue.State).
          Tracks format start batches z.0 (view z.2))
        (some-injective x y e)

  Step-Carries :
      (len format : ℕ)
      → header_size + len ≤ frame_size
      → {s t : System pool queue udp} (r : Reach udp ql len s t) (u : System pool queue udp)
        (st : Step udp ql len t u)
      → Sound pl ql closes len t
      → Carries format (history udp ql r) t
      → Carries format (history udp ql (then r st)) u
  Step-Carries len format fits {s} {t} r u (batch f bytes h free queued writes l run e) o c =
      let (h', free', queued', run', k) =
        add-Tracks pl ql format (length (flat c.carried)) c.pending f bytes t.generator
          t.stream.free t.stream.queued writes (omega arith)
          (subst (λ n. Owns pl ql n t.generator t.stream.free t.stream.queued) (sym l) o)
          c.tracks in
      subst (Carries format (history udp ql r ++ bytes ∷ [])) (sym e) (
        batch_Carries bytes h free queued c (
          Tracks-result format (length (flat c.carried)) (c.pending ++ bytes ∷ [])
            (h', free', queued') (h, free, queued) (sym run' ∙ run) k))
  Step-Carries len format fits {s} {t} r u (round fuel left enough run e) o c =
      subst (Carries format (history udp ql r)) (sym e)
        (round_Carries pl ql closes wire fuel left enough run c)
  Step-Carries len format fits {s} {t} r u (redirect remote left run e) o c =
      let (v, run', _, queued, _, _) = set_remote_lem udp pl ql closes remote t.stream in
      let same : v ≡ left = some-injective v left (sym run' ∙ run) in
      subst (Carries format (history udp ql r)) (sym e) (
        same_wire pl ql closes wire left
          (log_some pl ql closes wire _ _ left (set_remote_log wire remote t.stream) run)
          (ap (λ (w : DataStream pool queue udp). view w.queued) (sym same) ∙ ap view queued) c)

  initial_Carries :
      (format : ℕ) (s : System pool queue udp)
      → IsInitial pl ql closes format s
      → log s.stream.stack ≡ []
      → Carries format [] s
  unfolding configure new_generator
  initial_Carries format s i quiet = record {
    carried = [];
    pending = [];
    whole = refl;
    on_wire = quiet;
    tracks =
        subst (λ (g : FrameGenerator). Tracks format 0 [] g (view s.stream.queued)) (sym i.fresh)
          (subst (Tracks format 0 [] (configure format new_generator))
            (sym (ap view i.none_queued ∙ ql.view-new))
            (record {
              pieces = [];
              rest = [];
              whole = refl;
              frames_hold = tt;
              ongoing = tt;
              numbered = refl;
              formatted = refl;
            }));
  }

  Reach-Carries :
      (len format : ℕ) (s : System pool queue udp) {t : System pool queue udp}
      → header_size + len ≤ frame_size
      → IsInitial pl ql closes format s
      → log s.stream.stack ≡ []
      → (r : Reach udp ql len s t) → Carries format (history udp ql r) t
  Reach-Carries len format s fits i quiet here = initial_Carries format s i quiet
  Reach-Carries len format s {t} fits i quiet (then r st) =
      Step-Carries len format fits r t st (Reach-Sound pl ql closes len format fits s i r)
        (Reach-Carries len format s fits i quiet r)

  -- The packets are runs of consecutive batches of the history, in order and without overlap, each
  -- with the number of its first batch.
  abbrev pub AreRuns : ℕ → List (List ℕ) → List (List Cell) → Type 0
  AreRuns format batches sent =
      (pieces : List Piece) × (since : List (List ℕ)) × (batches ≡ flat pieces ++ since)
      × (sent ≡ packets format 0 pieces)

  -- For batches of one length that fits a frame after the header, over a pool and a queue with
  -- their laws and a network whose close never fails and that keeps a log of what it is given to
  -- send: from a fresh device and an empty log, after any interleaving of batches, stream rounds
  -- and changes of the remote, the packets of the log are runs of consecutive batches of the
  -- history of all batches that were added, in order and without overlap, each with the format,
  -- its count of batches and the number of its first batch modulo 2^32.
  pub Reach-AreRuns :
      (len format : ℕ) (s : System pool queue udp) {t : System pool queue udp}
      → header_size + len ≤ frame_size
      → IsInitial pl ql closes format s
      → log s.stream.stack ≡ []
      → (r : Reach udp ql len s t) → AreRuns format (history udp ql r) (log t.stream.stack)
  Reach-AreRuns len format s fits i quiet r =
      let c = Reach-Carries len format s fits i quiet r in
      (c.carried, c.pending, c.whole, c.on_wire)
