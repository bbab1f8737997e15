-- ===== src/Pounder/Gpio/Pins.antt =====
-- The contract of the chips of the GPIO extender: sixteen pins with a level and a direction each.
use stabilizer.Prelude.{ℕ, ◌≡◌, refl, ◌==◌, if◌then◌else◌}
use stabilizer.Prelude.Results.{ok}
use stabilizer.Pounder.Gpio.{
  GpioPin, led4_green, McpPin, a0, a1, a2, a3, a4, a5, a6, a7, b0, b1, b2, b3, b4, b5, b6, b7,
  PcaPin, p00, p01, p02, p03, p04, p05, p06, p07, p10, p11, p12, p13, p14, p15, p16, p17, mcp_pin,
  pca_pin, Level, low, high, Direction, input, output, PcaLevel, pca_low, pca_high, PcaDirection,
  pca_input, pca_output, pca_level, pca_direction, Expanders, IoExpander, mcp, pca, set_gpio_level,
  set_gpio_dir,
}

pub record Pins : Type 0 where
  pub level : ℕ → Level
  pub direction : ℕ → Direction

abbrev pub mcp_number : McpPin → ℕ
mcp_number a0 = 0
mcp_number a1 = 1
mcp_number a2 = 2
mcp_number a3 = 3
mcp_number a4 = 4
mcp_number a5 = 5
mcp_number a6 = 6
mcp_number a7 = 7
mcp_number b0 = 8
mcp_number b1 = 9
mcp_number b2 = 10
mcp_number b3 = 11
mcp_number b4 = 12
mcp_number b5 = 13
mcp_number b6 = 14
mcp_number b7 = 15

abbrev pub pca_number : PcaPin → ℕ
pca_number p00 = 0
pca_number p01 = 1
pca_number p02 = 2
pca_number p03 = 3
pca_number p04 = 4
pca_number p05 = 5
pca_number p06 = 6
pca_number p07 = 7
pca_number p10 = 8
pca_number p11 = 9
pca_number p12 = 10
pca_number p13 = 11
pca_number p14 = 12
pca_number p15 = 13
pca_number p16 = 14
pca_number p17 = 15

abbrev pub from_pca_level : PcaLevel → Level
from_pca_level pca_low = low
from_pca_level pca_high = high

abbrev pub from_pca_direction : PcaDirection → Direction
from_pca_direction pca_input = input
from_pca_direction pca_output = output

abbrev pub with_level : ℕ → Level → Pins → Pins
with_level n level p = record p { level = λ k. if k == n then level else p.level k }

abbrev pub with_direction : ℕ → Direction → Pins → Pins
with_direction n dir p = record p { direction = λ k. if k == n then dir else p.direction k }

module _ (expanders : Expanders) where
  open expanders use {State}

  -- Every access of either chip succeeds.
  pub record PinsAnswer : Type 0 where
    pub view : State → Pins
    pub mcp_level_lem :
        (pin : McpPin) (level : Level) (s : State)
        → (t : State) × (expanders.mcp_set_gpio pin level s ≡ (t, ok tt))
          × (view t ≡ with_level (mcp_number pin) level (view s))
    pub mcp_direction_lem :
        (pin : McpPin) (dir : Direction) (s : State)
        → (t : State) × (expanders.mcp_set_direction pin dir s ≡ (t, ok tt))
          × (view t ≡ with_direction (mcp_number pin) dir (view s))
    pub pca_level_lem :
        (pin : PcaPin) (level : PcaLevel) (s : State)
        → (t : State) × (expanders.pca_set_level pin level s ≡ (t, ok tt))
          × (view t ≡ with_level (pca_number pin) (from_pca_level level) (view s))
    pub pca_direction_lem :
        (pin : PcaPin) (dir : PcaDirection) (s : State)
        → (t : State) × (expanders.pca_set_direction pin dir s ≡ (t, ok tt))
          × (view t ≡ with_direction (pca_number pin) (from_pca_direction dir) (view s))

-- The number of a pin, at either chip.
abbrev pub pin_number : GpioPin → ℕ
pin_number pin = mcp_number (mcp_pin pin)

pca-pin_number : (pin : GpioPin) → pca_number (pca_pin pin) ≡ pin_number pin
pca-pin_number led4_green = refl
pca-pin_number _ = refl

from-pca_level : (level : Level) → from_pca_level (pca_level level) ≡ level
from-pca_level low = refl
from-pca_level high = refl

from-pca_direction : (dir : Direction) → from_pca_direction (pca_direction dir) ≡ dir
from-pca_direction input = refl
from-pca_direction output = refl

module _ (expanders : Expanders) (pins : PinsAnswer expanders) where
  open expanders use {State}

  pub set_gpio_level_lem :
      {Q : Type 0} (io : IoExpander) (pin : GpioPin) (level : Level) (s : State)
      → (t : State) × (set_gpio_level expanders {Q = Q} io pin level s ≡ (t, ok tt))
        × (pins.view t ≡ with_level (pin_number pin) level (pins.view s))
  unfolding set_gpio_level
  set_gpio_level_lem mcp pin level s =
      let (t, e, v) = pins.mcp_level_lem (mcp_pin pin) level s in (t, rw e refl, v)
  set_gpio_level_lem pca pin level s =
      let (t, e, v) = pins.pca_level_lem (pca_pin pin) (pca_level level) s in
      (t, rw e refl, rw (← pca-pin_number pin, v, from-pca_level level) refl)

  pub set_gpio_dir_lem :
      {Q : Type 0} (io : IoExpander) (pin : GpioPin) (dir : Direction) (s : State)
      → (t : State) × (set_gpio_dir expanders {Q = Q} io pin dir s ≡ (t, ok tt))
        × (pins.view t ≡ with_direction (pin_number pin) dir (pins.view s))
  unfolding set_gpio_dir
  set_gpio_dir_lem mcp pin dir s =
      let (t, e, v) = pins.mcp_direction_lem (mcp_pin pin) dir s in (t, rw e refl, v)
  set_gpio_dir_lem pca pin dir s =
      let (t, e, v) = pins.pca_direction_lem (pca_pin pin) (pca_direction dir) s in
      (t, rw e refl, rw (← pca-pin_number pin, v, from-pca_direction dir) refl)
