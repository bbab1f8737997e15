-- ===== src/Net/DataStream/Transmit.antt =====
-- src/net/data_stream.rs, `DataStream`: the frames of the queue are sent over UDP to the remote.
-- The UDP sockets of the network stack are a parameter.
pub mod Delivery
pub mod Wire
use stabilizer.Prelude.{
  ℕ, suc, ◌==◌, ◌&&◌, ◌||◌, not, if◌then◌else◌, Bool, true, false, List, Option, none, some, ◌+◌,
}
use stabilizer.Prelude.Results.{◌>>=◌}
use mathlib.Core.Option
use stabilizer.Net.DataStream.{Cell, StreamFrame, finish, Pool, Queue}

-- The address of a `SocketAddr`: of V4, or of V6 with its flow info and its scope.
pub data IpAddr : Type 0 where
  v4 : ℕ → IpAddr
  v6 : (address flowinfo scope_id : ℕ) → IpAddr

abbrev pub is_unspecified : IpAddr → Bool
is_unspecified (v4 a) = a == 0
is_unspecified (v6 a flowinfo scope_id) = a == 0

pub record StreamTarget : Type 0 where
  pub ip : IpAddr
  pub port : ℕ

-- `StreamTarget::default`, 0.0.0.0:0.
abbrev pub default_target : StreamTarget
default_target = record { ip = v4 0; port = 0 }

same_ip : IpAddr → IpAddr → Bool
same_ip (v4 a) (v4 b) = a == b
same_ip (v6 a flow scope) (v6 b flow2 scope2) = (a == b) && (flow == flow2) && (scope == scope2)
same_ip _ _ = false

-- `PartialEq` of the targets.
unfoldable pub same_target : StreamTarget → StreamTarget → Bool
unfolding same_ip
same_target a b = same_ip a.ip b.ip && (a.port == b.port)

pub data SendResult : Type 0 where
  sent unaddressable buffer_full other_error : SendResult

-- The stack of smoltcp-nal. Each call also gives the socket that it borrows; `close` tells whether
-- it succeeded.
pub record UdpStack : Type 1 where
  pub State : Type 0
  pub Socket : Type 0
  pub socket : State → State × Option Socket
  pub connect : Socket → StreamTarget → State → State × Socket × Bool
  pub send : Socket → List Cell → State → State × Socket × SendResult
  pub close : Socket → State → State × Bool

module _ (pool : Pool) (queue : Queue StreamFrame) (udp : UdpStack) where
  -- The stream with the stack, the pool and the queue that it uses.
  pub record DataStream : Type 0 where
    pub stack : udp.State
    pub socket : Option udp.Socket
    pub remote : StreamTarget
    pub free : pool.State
    pub queued : queue.State

  -- `self.stack.close(socket).unwrap()`.
  close_socket : udp.Socket → DataStream → Option DataStream
  close_socket socket s =
      let (stack, closed) = udp.close socket s.stack in
      if closed then some (record s { stack = stack }) else none

  close_held : Option udp.Socket → DataStream → Option DataStream
  close_held none s = some s
  close_held (some socket) s = close_socket socket (record s { socket = none })

  unfoldable pub close : DataStream → Option DataStream
  unfolding close_held close_socket
  close s = close_held s.socket s

  connected : StreamTarget → udp.State × udp.Socket × Bool → DataStream → Option (DataStream × Bool)
  connected remote (stack, socket, done) s =
      if done
      then some (record s { stack = stack; socket = some socket }, true)
      else Option.map (λ t. (t, false)) (close_socket socket (record s { stack = stack }))

  opened : udp.State × Option udp.Socket → DataStream → Option (DataStream × Bool)
  opened (stack, none) s = some (record s { stack = stack }, false)
  opened (stack, some socket) s =
      connected s.remote (udp.connect socket s.remote stack) (record s { stack = stack })

  abbrev holds : Option udp.Socket → Bool
  holds none = false
  holds (some _) = true

  -- `open`, with `true` for `Ok`.
  unfoldable pub open_socket : DataStream → Option (DataStream × Bool)
  unfolding opened connected close_socket
  open_socket s =
      if holds s.socket || is_unspecified s.remote.ip
      then some (s, false)
      else opened (udp.socket s.stack) s

  unfoldable pub set_remote : StreamTarget → DataStream → Option DataStream
  set_remote remote s = do
    s ← if same_target remote s.remote then some s else close s
    some (record s { remote = remote })

  -- `while let Some(frame) = self.queue.dequeue()`, which drops each buffer. `none` is a loop that
  -- is not done when the fuel is.
  unfoldable pub flush : ℕ → DataStream → Option DataStream
  flush ℕ.zero s = none
  flush (suc fuel) s = elim (queue.dequeue s.queued) [
    | none ↦ some s
    | some (frame, rest) ↦ flush fuel (record s { queued = rest; free = pool.release s.free })
  ]

  -- What is done about the socket once a send has returned.
  after_send : udp.State × udp.Socket × SendResult → DataStream → Option DataStream
  after_send (stack, socket, unaddressable) s =
      close_socket socket (record s { stack = stack; socket = none })
  after_send (stack, socket, _) s = some (record s { stack = stack; socket = some socket })

  transmit : udp.Socket → Option (StreamFrame × queue.State) → DataStream → Option DataStream
  transmit socket none s = some s
  transmit socket (some (frame, rest)) s = do
    s ← after_send (udp.send socket (finish frame).1 s.stack) (record s { queued = rest })
    some (record s { free = pool.release s.free })

  process_with : ℕ → Option udp.Socket → DataStream → Option DataStream
  process_with fuel none s = do (s, opened) ← open_socket s; if opened then flush fuel s else some s
  process_with fuel (some socket) s = transmit socket (queue.dequeue s.queued) s

  -- `process`; the fuel bounds the flush.
  unfoldable pub process : ℕ → DataStream → Option DataStream
  unfolding process_with transmit after_send close_socket
  process fuel s = process_with fuel s.socket s
