-- ===== src/Net/Users.antt =====
-- src/net/mod.rs: the users of the network and their round. Miniconf's MQTT client is a parameter,
-- and so are those of the users. `none` is a panic.
pub mod Rounds
pub mod Directing
pub mod Tests
use stabilizer.Prelude.{
  ℕ, ◌+◌, leb, if◌then◌else◌, Bool, true, false, List, [], ◌∷◌, ◌++◌, Option, none, some, length,
}
use stabilizer.Prelude.Results.{◌>>=◌, Result, ok, err}
use stabilizer.Net.DataStream.{Pool, Queue, StreamFrame, FrameGenerator, configure}
use stabilizer.Net.DataStream.Transmit.{UdpStack, DataStream, StreamTarget, set_remote, process}
use stabilizer.Net.NetworkProcessor.{Network, NetworkProcessor, UpdateState, updated, no_change}
use stabilizer.Net.NetworkProcessor
use stabilizer.Net.Telemetry.{Mqtt, TelemetryClient, string_of}
use stabilizer.Net.Telemetry

pub data NetworkState : Type 0 where
  settings_changed net_updated net_unchanged : NetworkState

-- The client that changes settings; `update` tells whether it did.
pub record Miniconf (S : Type 0) : Type 1 where
  pub State : Type 0
  pub Fault : Type 0
  pub update : State → S → State × S × Result Fault Bool

-- `format!("{id}-{mode}")` and `format!("dt/sinara/{app}/{id}")` in strings of 64 and 128 bytes.
unfoldable pub get_client_id : List ℕ → List ℕ → Option (List ℕ)
get_client_id id mode = string_of 64 (id ++ 45 ∷ mode)

abbrev pub root : List ℕ
root = 100 ∷ 116 ∷ 47 ∷ 115 ∷ 105 ∷ 110 ∷ 97 ∷ 114 ∷ 97 ∷ 47 ∷ []

unfoldable pub get_device_prefix : List ℕ → List ℕ → Option (List ℕ)
get_device_prefix app id = string_of 128 (root ++ (app ++ 47 ∷ id))

-- The third-party parts.
pub record Parts (S T : Type 0) : Type 1 where
  pub pool : Pool
  pub queue : Queue StreamFrame
  pub udp : UdpStack
  pub network : Network
  pub mqtt : Mqtt T
  pub miniconf : Miniconf S

module _ {S T : Type 0} (parts : Parts S T) where
  open parts use {pool, queue, udp, network, mqtt, miniconf}

  pub record NetworkUsers : Type 0 where
    pub config : miniconf.State
    pub processor : NetworkProcessor network
    pub stream : DataStream pool queue udp
    pub generator : Option FrameGenerator
    pub telemetry : TelemetryClient mqtt

  -- The generator is given away once.
  configured : ℕ → Option FrameGenerator → NetworkUsers → Option (NetworkUsers × FrameGenerator)
  configured format none u = none
  configured format (some g) u = some (record u { generator = none }, configure format g)

  unfoldable pub configure_streaming : ℕ → NetworkUsers → Option (NetworkUsers × FrameGenerator)
  unfolding configured
  configure_streaming format u = configured format u.generator u

  -- `self.generator.is_none()`.
  abbrev pub is_streaming : Option FrameGenerator → Bool
  is_streaming none = true
  is_streaming (some _) = false

  unfoldable pub direct_stream : StreamTarget → NetworkUsers → Option NetworkUsers
  direct_stream remote u =
      if is_streaming u.generator
      then (do
        stream ← set_remote pool queue udp remote u.stream
        some (record u { stream = stream }))
      else some u

  abbrev pub polled : UpdateState → NetworkState
  polled no_change = net_unchanged
  polled updated = net_updated

  abbrev pub combined : Result miniconf.Fault Bool → NetworkState → NetworkState
  combined (ok true) state = settings_changed
  combined _ state = state

  -- `update`; the fuel bounds the flush of the stream.
  unfoldable pub update : ℕ → S → NetworkUsers → Option (NetworkUsers × S × NetworkState)
  update fuel settings u = do
    telemetry ← stabilizer.Net.Telemetry.update mqtt u.telemetry
    stream ←
        if is_streaming u.generator then process pool queue udp fuel u.stream else some u.stream
    let polling = stabilizer.Net.NetworkProcessor.update network u.processor
    let changes = miniconf.update u.config settings
    some (
      record u {
        config = changes.0;
        processor = polling.0;
        stream = stream;
        telemetry = telemetry;
      },
      changes.1,
      combined changes.2 (polled polling.1),
    )
