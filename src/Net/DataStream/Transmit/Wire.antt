-- ===== src/Net/DataStream/Transmit/Wire.antt =====
-- What the stream hands to the network: only `transmit` sends, and it sends the frame that it took.
use stabilizer.Prelude.{
  ℕ, zero, suc, ◌≡◌, refl, sym, ◌∙◌, subst, Bool, true, false, List, [], ◌∷◌, ◌++◌, Option, none,
  some, if◌then◌else◌, ◌||◌, Bool-cases, Option-cases, inl, inr,
}
use stabilizer.Prelude.Results.{◌>>=◌}
use mathlib.Core.Option
use stabilizer.Net.DataStream.{Cell, Pool, Queue, StreamFrame, finish}
use stabilizer.Net.DataStream.Transmit.{
  UdpStack, DataStream, StreamTarget, SendResult, sent, unaddressable, buffer_full, other_error,
  close_socket, close_held, close, connected, opened, open_socket, set_remote, flush, transmit,
  after_send, process, process_with, is_unspecified, holds, same_target,
}

-- A record of what was given to `send`, which the other calls leave alone.
pub record WireLog (udp : UdpStack) : Type 0 where
  pub log : udp.State → List (List Cell)
  pub log-send :
      (socket : udp.Socket) (bytes : List Cell) (s : udp.State)
      → log (udp.send socket bytes s).0 ≡ log s ++ bytes ∷ []
  pub log-socket : (s : udp.State) → log (udp.socket s).0 ≡ log s
  pub log-connect :
      (socket : udp.Socket) (target : StreamTarget) (s : udp.State)
      → log (udp.connect socket target s).0 ≡ log s
  pub log-close : (socket : udp.Socket) (s : udp.State) → log (udp.close socket s).0 ≡ log s

module _ {pool : Pool} {queue : Queue StreamFrame} {udp : UdpStack} (wire : WireLog udp) where
  open wire use {log}

  -- If the call returns, the log is this one.
  abbrev pub Logged : List (List Cell) → Option (DataStream pool queue udp) → Type 0
  Logged l none = Unit
  Logged l (some t) = log t.stack ≡ l

  abbrev LoggedOpen : List (List Cell) → Option (DataStream pool queue udp × Bool) → Type 0
  LoggedOpen l none = Unit
  LoggedOpen l (some (t, _)) = log t.stack ≡ l

  if_log :
      (l : List (List Cell)) (closed : Bool) (t : DataStream pool queue udp)
      → log t.stack ≡ l
      → Logged l (if closed then some t else none)
  if_log l true t e = e
  if_log l false t e = tt

  close_log :
      (l : List (List Cell)) (socket : udp.Socket) (s : DataStream pool queue udp)
      → log s.stack ≡ l
      → Logged l (close_socket pool queue udp socket s)
  unfolding close_socket
  close_log l socket s e =
      if_log l (udp.close socket s.stack).1 (record s { stack = (udp.close socket s.stack).0 })
        (wire.log-close socket s.stack ∙ e)

  close_held_log :
      (held : Option udp.Socket) (s : DataStream pool queue udp)
      → Logged (log s.stack) (close_held pool queue udp held s)
  unfolding close_held
  close_held_log none s = refl
  close_held_log (some socket) s = close_log (log s.stack) socket (record s { socket = none }) refl

  redirect_log :
      (l : List (List Cell)) (remote : StreamTarget) (o : Option (DataStream pool queue udp))
      → Logged l o
      → Logged l (do s ← o; some (record s { remote = remote }))
  redirect_log l remote none h = tt
  redirect_log l remote (some s) h = h

  pub set_remote_log :
      (remote : StreamTarget) (s : DataStream pool queue udp)
      → Logged (log s.stack) (set_remote pool queue udp remote s)
  unfolding set_remote close
  set_remote_log remote s = elim (Bool-cases (same_target remote s.remote)) [
    | inl same ↦ rw same refl
    | inr new ↦ rw new (
        redirect_log (log s.stack) remote (close_held pool queue udp s.socket s)
          (close_held_log s.socket s))
  ]

  released_log :
      (l : List (List Cell)) (o : Option (DataStream pool queue udp))
      → Logged l o
      → Logged l (do s ← o; some (record s { free = pool.release s.free }))
  released_log l none h = tt
  released_log l (some s) h = h

  after_send_log :
      (l : List (List Cell)) (stack : udp.State) (socket : udp.Socket) (result : SendResult)
      (s : DataStream pool queue udp)
      → log stack ≡ l
      → Logged l (after_send pool queue udp (stack, socket, result) s)
  unfolding after_send
  after_send_log l stack socket unaddressable s e =
      close_log l socket (record s { stack = stack; socket = none }) e
  after_send_log l stack socket sent s e = e
  after_send_log l stack socket buffer_full s e = e
  after_send_log l stack socket other_error s e = e

  -- With a socket, the packet of the frame that was taken is sent, or nothing.
  transmit_log :
      (socket : udp.Socket) (frame : StreamFrame) (rest : queue.State)
      (s : DataStream pool queue udp)
      → Logged
          (log s.stack ++ (finish frame).1 ∷ [])
          (transmit pool queue udp socket (some (frame, rest)) s)
  unfolding transmit
  transmit_log socket frame rest s = released_log _ _ (
      after_send_log _ _ _ _ (record s { queued = rest })
        (wire.log-send socket (finish frame).1 s.stack))

  first_log :
      (l : List (List Cell)) (b : Bool) (o : Option (DataStream pool queue udp))
      → Logged l o
      → LoggedOpen l (Option.map (λ t. (t, b)) o)
  first_log l b none h = tt
  first_log l b (some t) h = h

  connected_log :
      (l : List (List Cell)) (target : StreamTarget) (stack : udp.State) (socket : udp.Socket)
      (done : Bool) (s : DataStream pool queue udp)
      → log stack ≡ l
      → LoggedOpen l (connected pool queue udp target (stack, socket, done) s)
  unfolding connected
  connected_log l target stack socket true s e = e
  connected_log l target stack socket false s e =
      first_log l false _ (close_log l socket (record s { stack = stack }) e)

  opened_log :
      (l : List (List Cell)) (stack : udp.State) (socket : Option udp.Socket)
      (s : DataStream pool queue udp)
      → log stack ≡ l
      → LoggedOpen l (opened pool queue udp (stack, socket) s)
  unfolding opened
  opened_log l stack none s e = e
  opened_log l stack (some socket) s e =
      connected_log l s.remote _ _ _ (record s { stack = stack })
        (wire.log-connect socket s.remote stack ∙ e)

  open_if_log :
      (b : Bool) (s : DataStream pool queue udp)
      → LoggedOpen
          (log s.stack)
          (if b then some (s, false) else opened pool queue udp (udp.socket s.stack) s)
  open_if_log true s = refl
  open_if_log false s = opened_log _ _ _ s (wire.log-socket s.stack)

  flush_log :
      (fuel : ℕ) (s : DataStream pool queue udp)
      → Logged (log s.stack) (flush pool queue udp fuel s)
  unfolding flush
  flush_log zero s = tt
  flush_log (suc fuel) s = elim (Option-cases (queue.dequeue s.queued)) [
    | inl empty ↦ rw (empty, Logged) refl
    | inr ((frame, rest), taken) ↦
        rw (taken, Logged) (flush_log fuel (record s { queued = rest; free = pool.release s.free }))
  ]

  flush_if_log :
      (fuel : ℕ) (l : List (List Cell)) (o : Option (DataStream pool queue udp × Bool))
      → LoggedOpen l o
      → Logged l (do (s, opened) ← o; if opened then flush pool queue udp fuel s else some s)
  flush_if_log fuel l none h = tt
  flush_if_log fuel l (some (t, true)) h =
      subst (λ k. Logged k (flush pool queue udp fuel t)) h (flush_log fuel t)
  flush_if_log fuel l (some (t, false)) h = h

  -- Without a socket nothing is sent.
  unopened_log :
      (fuel : ℕ) (s : DataStream pool queue udp)
      → Logged (log s.stack) (process_with pool queue udp fuel none s)
  unfolding process_with open_socket
  unopened_log fuel s =
      flush_if_log fuel (log s.stack) _
        (open_if_log (holds pool queue udp s.socket || is_unspecified s.remote.ip) s)

  -- Without a socket nothing is sent, with a socket the packet of the oldest frame, if there is one.
  pub process_unopened_log :
      (fuel : ℕ) (s : DataStream pool queue udp)
      → s.socket ≡ none
      → Logged (log s.stack) (process pool queue udp fuel s)
  unfolding process
  process_unopened_log fuel s e =
      subst (λ o. Logged (log s.stack) (process_with pool queue udp fuel o s)) (sym e)
        (unopened_log fuel s)

  pub process_idle_log :
      (fuel : ℕ) (s : DataStream pool queue udp) (socket : udp.Socket)
      → s.socket ≡ some socket
      → queue.dequeue s.queued ≡ none
      → Logged (log s.stack) (process pool queue udp fuel s)
  unfolding process process_with transmit
  process_idle_log fuel s socket e empty =
      subst (λ o. Logged (log s.stack) (process_with pool queue udp fuel o s)) (sym e)
        (subst (λ o. Logged (log s.stack) (transmit pool queue udp socket o s)) (sym empty) refl)

  pub process_sent_log :
      (fuel : ℕ) (s : DataStream pool queue udp) (socket : udp.Socket) (frame : StreamFrame)
      (rest : queue.State)
      → s.socket ≡ some socket
      → queue.dequeue s.queued ≡ some (frame, rest)
      → Logged (log s.stack ++ (finish frame).1 ∷ []) (process pool queue udp fuel s)
  unfolding process process_with
  process_sent_log fuel s socket frame rest e taken =
      let l = log s.stack ++ (finish frame).1 ∷ [] in
      subst (λ o. Logged l (process_with pool queue udp fuel o s)) (sym e)
        (subst (λ o. Logged l (transmit pool queue udp socket o s)) (sym taken)
          (transmit_log socket frame rest s))
