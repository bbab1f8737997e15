-- ===== src/Net/Users/Directing.antt =====
-- The target of the stream reaches it once the generator is given away.
use stabilizer.Prelude.{◌≡◌, refl, true, false, Option, none, some}
use stabilizer.Net.DataStream.{FrameGenerator}
use stabilizer.Net.DataStream.Contract.{PoolLaws, QueueLaws}
use stabilizer.Net.DataStream.Transmit.{StreamTarget}
use stabilizer.Net.DataStream.Transmit.Delivery.{set_remote_lem}
use stabilizer.Net.Users.{Parts, NetworkUsers, is_streaming, direct_stream}

module _ {S T : Type 0} {parts : Parts S T} (pl : PoolLaws parts.pool) (ql : QueueLaws parts.queue)
    (closes : (socket : parts.udp.Socket) (s : parts.udp.State)
      → (parts.udp.close socket s).1 ≡ true) where
  -- Once the generator is given away the stream has the target, and before that it is kept.
  abbrev pub Directs : StreamTarget → NetworkUsers parts → NetworkUsers parts → Type 0
  Directs remote u v =
      (v.generator ≡ u.generator)
      × (is_streaming parts u.generator ≡ true → v.stream.remote ≡ remote)
      × (is_streaming parts u.generator ≡ false → v ≡ u)

  directed :
      (remote : StreamTarget) (u : NetworkUsers parts) (g : Option FrameGenerator)
      → u.generator ≡ g
      → (v : NetworkUsers parts) × (direct_stream parts remote u ≡ some v) × Directs remote u v
  unfolding direct_stream
  directed remote u none e =
      let (t, run, _, _, at, _) = set_remote_lem parts.udp pl ql closes remote u.stream in
      (record u { stream = t }, rw e (rw run refl), (refl, (λ _. at), rw e (λ k. cc)))
  directed remote u (some g) e = (u, rw e refl, (refl, rw e (λ k. cc), λ _. refl))

  pub direct_stream_lem :
      (remote : StreamTarget) (u : NetworkUsers parts)
      → (v : NetworkUsers parts) × (direct_stream parts remote u ≡ some v) × Directs remote u v
  direct_stream_lem remote u = directed remote u u.generator refl
