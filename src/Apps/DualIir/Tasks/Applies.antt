-- ===== src/Apps/DualIir/Tasks/Applies.antt =====
-- An update of the settings reaches every part of the board, and a waveform that is not valid does
-- not stop it.
use stabilizer.Prelude.{◌≡◌, refl, ap, true, [], ◌∷◌, some}
use stabilizer.Prelude.Results.{Result, ok, err}
use stabilizer.Prelude.Floats.{Floats, SignedFloats}
use stabilizer.Hardware.Afe.{PinsHold, get_gain, set-get_gain}
use stabilizer.Hardware.SignalGenerator.{Sources, SignalGenerator, Config, update_waveform}
use stabilizer.Hardware.SignalGenerator.Conversion.{Error}
use stabilizer.Net.DataStream.Contract.{PoolLaws, QueueLaws}
use stabilizer.Net.Users.{Parts}
use stabilizer.Net.Users.Directing.{Directs, direct_stream_lem}
use stabilizer.Apps.DualIir.{Filters, DualIir}
use stabilizer.Apps.DualIir.Tasks.{
  Outputs, Board, converted, updated_generator, updated, settings_update,
}

-- A waveform that is accepted replaces the configuration alone; otherwise the generator is kept.
abbrev pub Follows :
    (sources : Sources)
    → Result Error Config
    → SignalGenerator sources
    → SignalGenerator sources
    → Type 0
Follows sources result g h =
    ((config : Config) → result ≡ ok config → h ≡ record g { config = config })
    × ((e : Error) → result ≡ err e → h ≡ g)

module _ (floats : Floats) (signed : SignedFloats floats) (filters : Filters floats)
    (sources : Sources) where
  updated_Follows :
      (result : Result Error Config) (g : SignalGenerator sources)
      → Follows sources result g (updated_generator floats signed filters sources result g)
  unfolding update_waveform
  updated_Follows (ok config) g = (
    (λ c h.
        ap (λ (r : Result Error Config). updated_generator floats signed filters sources r g) h),
    λ e h. cc,
  )
  updated_Follows (err e) g = ((λ c h. cc), λ e h. refl)

  module _ (outputs : Outputs) (hold0 : PinsHold outputs.afe0) (hold1 : PinsHold outputs.afe1)
      {T : Type 0} {parts : Parts (DualIir floats signed filters) T} (pl : PoolLaws parts.pool)
      (ql : QueueLaws parts.queue)
      (closes : (socket : parts.udp.Socket) (s : parts.udp.State)
        → (parts.udp.close socket s).1 ≡ true) where
    -- What the settings do to the board.
    abbrev pub Applies :
        DualIir floats signed filters
        → Board floats signed filters sources outputs parts
        → Board floats signed filters sources outputs parts
        → Type 0
    Applies settings b c =
        (get_gain outputs.afe0 c.afe0 ≡ some settings.afe.0)
        × (get_gain outputs.afe1 c.afe1 ≡ some settings.afe.1)
        × (c.cpu_dac1 ≡ outputs.set_value settings.cpu_dac1 b.cpu_dac1)
        × (c.gpio_dac ≡ (outputs.write (settings.frontend_offset ∷ []) b.gpio_dac).0)
        × Follows sources (converted floats signed filters sources settings.signal_generator.0)
            b.signal_generator.0 c.signal_generator.0
        × Follows sources (converted floats signed filters sources settings.signal_generator.1)
            b.signal_generator.1 c.signal_generator.1
        × Directs pl ql closes settings.stream_target b.users c.users
        × (c.active_settings ≡ settings)

    -- Over amplifiers whose pins hold their level, a pool and a queue with their laws and a
    -- network whose close never fails: an update of the settings returns, whether or not the
    -- waveforms are valid and the DAC answers; the gains then read back, the DACs are set, each
    -- signal generator has the new configuration if it is valid and is unchanged otherwise, the
    -- stream is directed once its generator was given away, and the processing has the settings.
    pub settings_update-Applies :
        (settings : DualIir floats signed filters)
        (b : Board floats signed filters sources outputs parts)
        → (c : Board floats signed filters sources outputs parts) × (settings_update floats signed
              filters sources outputs parts settings b
            ≡ some c)
          × Applies settings b c
    unfolding settings_update
    settings_update-Applies settings b =
        let (a0, run0, gain0) = set-get_gain outputs.afe0 hold0 settings.afe.0 b.afe0 in
        let (a1, run1, gain1) = set-get_gain outputs.afe1 hold1 settings.afe.1 b.afe1 in
        let (u, run, directs) = direct_stream_lem pl ql closes settings.stream_target b.users in
        let follow0 =
          updated_Follows (converted floats signed filters sources settings.signal_generator.0)
            b.signal_generator.0 in
        let follow1 =
          updated_Follows (converted floats signed filters sources settings.signal_generator.1)
            b.signal_generator.1 in
        (
          updated floats signed filters sources outputs parts settings b a0 a1 u,
          rw (run0, run1, run) refl,
          (gain0, gain1, refl, refl, follow0, follow1, directs, refl),
        )
