-- ===== src/Net/Telemetry.antt =====
-- src/net/telemetry.rs: the values that are reported over MQTT, and the client that reports them.
-- The client of minimq with the JSON encoder, and f32, are parameters. `none` is a panic.
pub mod Once
use stabilizer.Prelude.{
  ℕ, ◌+◌, ◌&&◌, leb, not, if◌then◌else◌, Bool, true, false, List, [], ◌∷◌, ◌++◌, Option, none, some,
  length,
}
use stabilizer.Prelude.Results.{◌>>=◌}
use stabilizer.Prelude.Floats.{Floats, SignedFloats}
use stabilizer.Hardware.Codes.{AdcCode, DacCode, adc_code, dac_code_of_u16, adc_volts, dac_volts}
use stabilizer.Hardware.Afe.{Gain, as_multiplier}

-- A pair for an array of two.
pub record TelemetryBuffer : Type 0 where
  pub adcs : AdcCode × AdcCode
  pub dacs : DacCode × DacCode
  pub digital_inputs : Bool × Bool

abbrev pub default_buffer : TelemetryBuffer
default_buffer = record {
  adcs = (adc_code 0, adc_code 0);
  dacs = (dac_code_of_u16 0, dac_code_of_u16 0);
  digital_inputs = (false, false);
}

module _ (floats : Floats) (signed : SignedFloats floats) where
  open floats use {Float, over}

  pub record Telemetry : Type 0 where
    pub adcs : Float × Float
    pub dacs : Float × Float
    pub digital_inputs : Bool × Bool
    pub cpu_temp : Float

  unfoldable pub finalize : Gain → Gain → Float → TelemetryBuffer → Telemetry
  finalize afe0 afe1 cpu_temp buffer = record {
    cpu_temp = cpu_temp;
    adcs = (
      over (adc_volts floats signed buffer.adcs.0) (as_multiplier floats afe0),
      over (adc_volts floats signed buffer.adcs.1) (as_multiplier floats afe1),
    );
    dacs = (dac_volts floats signed buffer.dacs.0, dac_volts floats signed buffer.dacs.1);
    digital_inputs = buffer.digital_inputs;
  }

-- A text is the list of its bytes; a `String<n>` panics where a text does not fit.
abbrev pub string_of : ℕ → List ℕ → Option (List ℕ)
string_of capacity text = if leb (length text) capacity then some text else none

-- "/telemetry" and "/meta".
abbrev pub telemetry_path : List ℕ
telemetry_path = 47 ∷ 116 ∷ 101 ∷ 108 ∷ 101 ∷ 109 ∷ 101 ∷ 116 ∷ 114 ∷ 121 ∷ []

abbrev pub meta_path : List ℕ
meta_path = 47 ∷ 109 ∷ 101 ∷ 116 ∷ 97 ∷ []

-- What is published: a telemetry, the metadata, or the message in its place.
pub data Payload (T : Type 0) : Type 0 where
  telemetry : T → Payload T
  metadata default_metadata : Payload T

-- `publish` tells whether it succeeded.
pub record Mqtt (T : Type 0) : Type 1 where
  pub State : Type 0
  pub poll : State → State
  pub is_connected : State → Bool
  pub can_publish : State → Bool
  pub publish : List ℕ → Payload T → State → State × Bool

module _ {T : Type 0} (mqtt : Mqtt T) where
  pub record TelemetryClient : Type 0 where
    pub client : mqtt.State
    pub prefix : List ℕ
    pub meta_published : Bool

  unfoldable pub new : mqtt.State → List ℕ → TelemetryClient
  new client prefix = record { client = client; prefix = prefix; meta_published = false }

  -- The prefix with the rest of the topic.
  unfoldable pub topic_of : List ℕ → List ℕ → Option (List ℕ)
  topic_of prefix path = do topic ← string_of 128 prefix; string_of 128 (topic ++ path)

  unfoldable pub publish : T → TelemetryClient → Option TelemetryClient
  publish t c = do
    topic ← topic_of c.prefix telemetry_path
    some (record c { client = (mqtt.publish topic (telemetry t) c.client).0 })

  -- What follows the first attempt to publish the metadata.
  published_meta : List ℕ → mqtt.State × Bool → Option mqtt.State
  published_meta topic (client, true) = some client
  published_meta topic (client, false) =
      let (client, sent) = mqtt.publish topic default_metadata client in
      if sent then some client else none

  publish_meta : TelemetryClient → Option TelemetryClient
  publish_meta c = do
    topic ← topic_of c.prefix meta_path
    client ← published_meta topic (mqtt.publish topic metadata c.client)
    some (record c { client = client; meta_published = true })

  unfoldable pub update : TelemetryClient → Option TelemetryClient
  unfolding publish_meta published_meta
  update c =
      let client = mqtt.poll c.client in
      let c = record c { client = client } in
      if not (mqtt.is_connected client)
      then some (record c { meta_published = false })
      else if not c.meta_published && mqtt.can_publish client
      then publish_meta c
      else some c
