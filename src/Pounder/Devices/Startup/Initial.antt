-- ===== src/Pounder/Devices/Startup/Initial.antt =====
-- The pins that `PounderDevices::new` leaves.
use stabilizer.Prelude.{
  Bool, true, false, not, ◌&&◌, ℕ, ◌≡◌, ◌<◌, ◌==◌, refl, arith, ap, ◌∙◌, List, [], ◌∷◌, some,
  if◌then◌else◌,
}
use stabilizer.Prelude.Tables.{holds_below, holds_below_lem}
use stabilizer.Prelude.Results.{ok}
use stabilizer.Prelude.Floats.{Floats}
use stabilizer.Pounder.Gpio.{
  GpioPin, Level, low, high, Direction, output, IoExpander, all_pins, new_expander, dds_reset,
  att_rst_n,
}
use stabilizer.Pounder.Gpio.Pins.{
  Pins, PinsAnswer, with_level, with_direction, pin_number, set_gpio_level_lem, set_gpio_dir_lem,
}
use stabilizer.Pounder.Devices.{
  Hardware, PounderDevices, clear_pins, reset_attenuators, reset_dds, set_level,
}
use stabilizer.Pounder.Devices.Startup.{new, reset_all}

-- The pins after the loop, and after the resets.
abbrev cleared : List GpioPin → Pins → Pins
cleared [] p = p
cleared (pin ∷ pins) p =
    cleared pins (with_direction (pin_number pin) output (with_level (pin_number pin) low p))

abbrev toggled : GpioPin → Level → Level → Pins → Pins
toggled pin first second p =
    with_level (pin_number pin) second (with_level (pin_number pin) first p)

abbrev initial : Pins → Pins
initial p = toggled dds_reset high low (toggled att_rst_n low high (cleared all_pins p))

-- Each pin is an output, and low unless it is the reset of the attenuators, which is active low.
abbrev pub IsInitial : Pins → Type 0
IsInitial p =
    (n : ℕ)
    → n < 16
    → (p.direction n ≡ output) × (p.level n ≡ (if n == pin_number att_rst_n then high else low))

is_high : Level → Bool
is_high high = true
is_high low = false

is_output : Direction → Bool
is_output output = true
is_output _ = false

is_initial : Pins → ℕ → Bool
is_initial p n =
    is_output (p.direction n)
    && (if n == pin_number att_rst_n then is_high (p.level n) else not (is_high (p.level n)))

initial_table : (p : Pins) → holds_below 16 (is_initial (initial p)) ≡ true
unfolding holds_below is_initial is_output is_high
initial_table p = refl

is_output_lem : (dir : Direction) → is_output dir ≡ true → dir ≡ output
unfolding is_output
is_output_lem output h = refl
is_output_lem _ h = absurd (ground arith)

is_high_lem :
    (level : Level) (up : Bool)
    → (if up then is_high level else not (is_high level)) ≡ true
    → level ≡ (if up then high else low)
unfolding is_high
is_high_lem high true h = refl
is_high_lem low false h = refl
is_high_lem low true h = absurd (ground arith)
is_high_lem high false h = absurd (ground arith)

both : (a b : Bool) → (a && b) ≡ true → (a ≡ true) × (b ≡ true)
both a b h = (ground arith, ground arith)

initial-IsInitial : (p : Pins) → IsInitial (initial p)
unfolding is_initial
initial-IsInitial p n h =
    let (out, level) =
      both _ _ (holds_below_lem 16 (is_initial (initial p)) (initial_table p) n h) in
    (is_output_lem _ out, is_high_lem _ (n == pin_number att_rst_n) level)

module _ (floats : Floats) (hardware : Hardware floats.Float)
    (pins : PinsAnswer hardware.expanders) where
  open hardware use {QspiFault, expanders}
  open expanders use {State}

  abbrev Devices : Type 0
  Devices = PounderDevices floats hardware

  abbrev moved : Devices → State → Devices
  moved d h = record d { hw = h }

  clear_pins_lem :
      (l : List GpioPin) (d : Devices)
      → (h : State) × (clear_pins floats hardware l d ≡ (moved d h, ok tt))
        × (pins.view h ≡ cleared l (pins.view d.hw))
  unfolding clear_pins
  clear_pins_lem [] d = (d.hw, refl, refl)
  clear_pins_lem (pin ∷ l) d =
      let (h, e, v) = set_gpio_level_lem expanders pins {Q = QspiFault} d.io pin low d.hw in
      let (h2, e2, v2) = set_gpio_dir_lem expanders pins {Q = QspiFault} d.io pin output h in
      let (h3, e3, v3) = clear_pins_lem l (moved d h2) in
      (h3, rw (e, e2, e3) refl, rw (v3, v2, v) refl)

  toggle_lem :
      (pin : GpioPin) (first second : Level) (d : Devices)
      → (h : State) × (h2 : State) × (set_level floats hardware pin first d ≡ (moved d h, ok tt))
        × (set_level floats hardware pin second (moved d h) ≡ (moved d h2, ok tt))
        × (pins.view h2 ≡ toggled pin first second (pins.view d.hw))
  toggle_lem pin first second d =
      let (h, e, v) = set_gpio_level_lem expanders pins {Q = QspiFault} d.io pin first d.hw in
      let (h2, e2, v2) = set_gpio_level_lem expanders pins {Q = QspiFault} d.io pin second h in
      (h, h2, rw e refl, rw e2 refl, rw (v2, v) refl)

  -- On a GPIO extender of either chip whose accesses succeed: once the chip is found, new
  -- succeeds, and each of the sixteen pins is an output that is low, except the active-low reset
  -- of the attenuators, which is high.
  pub new-IsInitial :
      (s t : State) (io : IoExpander)
      → new_expander expanders s ≡ some (t, io)
      → (d : Devices) × (new floats hardware s ≡ some (d, ok tt)) × IsInitial (pins.view d.hw)
  unfolding new reset_all reset_attenuators reset_dds
  new-IsInitial s t io found =
      let d : Devices = record { hw = t; io = io } in
      let (h, e, v) = clear_pins_lem all_pins d in
      let (h1, h2, e1, e2, v2) = toggle_lem att_rst_n low high (moved d h) in
      let (h3, h4, e3, e4, v4) = toggle_lem dds_reset high low (moved d h2) in
      let same = v4 ∙ ap (toggled dds_reset high low) (v2 ∙ ap (toggled att_rst_n low high) v) in
      (moved d h4, rw (found, e, e1, e2, e3, e4) refl, rw same (initial-IsInitial (pins.view t)))
