-- ===== src/Pounder/DdsOutput.antt =====
-- src/hardware/pounder/dds_output.rs: profiles are written to the QSPI FIFO, and a pulse of the
-- high resolution timer makes them effective.
pub mod Stream
pub mod Tests
use stabilizer.Prelude.{ℕ, List, [], ◌∷◌, ◌++◌, map, Option, none, some}
use stabilizer.Prelude.Results.{◌>>=◌}
use mathlib.Core.Option
use stabilizer.Ad9959.{Mode}
use stabilizer.Ad9959.Serializer
use stabilizer.Ad9959.Serializer.{ProfileSerializer}

-- What the code does to the hardware: a word into the FIFO, and the trigger of the IO_Update pulse.
pub data BusEvent : Type 0 where
  word : ℕ → BusEvent
  trigger : BusEvent

pub record DdsOutput : Type 0 where
  pub mode : Mode
  pub bus : List BusEvent

pub record ProfileBuilder : Type 0 where
  pub dds_output : DdsOutput
  pub serializer : ProfileSerializer

unfoldable pub builder : DdsOutput → ProfileBuilder
builder o = record { dds_output = o; serializer = Serializer.new o.mode }

unfoldable pub write : List ℕ → DdsOutput → DdsOutput
write profile o = record o { bus = o.bus ++ (map word profile ++ trigger ∷ []) }

unfoldable pub update_channels :
    ℕ → Option ℕ → Option ℕ → Option ℕ → ProfileBuilder → Option ProfileBuilder
update_channels channels ftw phase acr b =
    Option.map (λ s. record b { serializer = s })
      (Serializer.update_channels channels ftw phase acr b.serializer)

-- `ProfileBuilder::write`.
unfoldable pub write_profile : ProfileBuilder → Option ProfileBuilder
write_profile b = do
  (s, words) ← Serializer.finalize b.serializer
  some (record { dds_output = write words b.dds_output; serializer = s })
