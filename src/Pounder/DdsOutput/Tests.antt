-- ===== src/Pounder/DdsOutput/Tests.antt =====
-- Profiles at concrete words, and what does not fit the buffer.
use stabilizer.Prelude.{◌≡◌, refl, arith, [], ◌∷◌, none, some, overwrite}
use stabilizer.Ad9959.{four_bit_serial}
use stabilizer.Ad9959.Serializer
use stabilizer.Ad9959.Serializer.Device.{Dds}
use stabilizer.Ad9959.Serializer.Effect.{Update}
use stabilizer.Pounder.DdsOutput.{DdsOutput, builder, update_channels}
use stabilizer.Pounder.DdsOutput.Stream.{update_all, Streams, stream-parse, Sets, stream-effect}

abbrev output : DdsOutput
output = record { mode = four_bit_serial; bus = [] }

abbrev full : Update
full = record { channels = 0x30; ftw = some 0x01020304; pow = some 0x0506; acr = some 0x0710_08 }

abbrev chirp : Update
chirp = record { channels = 0x80; ftw = some 77; pow = none; acr = none }

abbrev idle : Dds
idle = record {
  select = 0xf0;
  frequency = λ _. 0 ∷ 0 ∷ 0 ∷ 0 ∷ [];
  phase = λ _. 0 ∷ 0 ∷ [];
  amplitude = λ _. 0 ∷ 0 ∷ 0 ∷ [];
  ramp_rate = λ _. 0 ∷ 0 ∷ [];
}

stream-parse_example : Streams (full ∷ chirp ∷ []) output
stream-parse_example = stream-parse (full ∷ chirp ∷ []) output (omega arith) (omega arith)

stream-effect_example : Sets full output idle 1
stream-effect_example = stream-effect full output idle 1 (omega arith) (omega arith)

-- Three full updates want 42 bytes, which the buffer has no room for.
three_full_panic : update_all (full ∷ full ∷ full ∷ []) (builder output) ≡ none
unfolding update_all builder update_channels Serializer.new Serializer.update_channels
    Serializer.add_write? Serializer.add_write overwrite
three_full_panic = refl
