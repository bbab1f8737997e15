-- ===== src/Pounder/Gpio.antt =====
-- src/hardware/pounder/mod.rs: the pins of the GPIO extender, their names at the two chips that may
-- be fitted, and `IoExpander`. The drivers of the chips are parameters.
pub mod Pins
use stabilizer.Prelude.{ℕ, List, [], ◌∷◌, Bool, true, false, Option, none, some, if◌then◌else◌}
use stabilizer.Prelude.Results.{Result, ok, err}
use stabilizer.Prelude.Effects.{Action, map_err}
use stabilizer.Pounder.{Channel}
use stabilizer.Pounder.Qspi.{Error, i2c}

pub data GpioPin : Type 0 where
  led4_green led5_red led6_green led7_red led8_green led9_red det_pwrdown0 det_pwrdown1 : GpioPin
  att_le0 att_le1 att_le2 att_le3 dds_reset att_rst_n osc_en_n ext_clk_sel : GpioPin

-- `enum_iterator::all::<GpioPin>()`.
abbrev pub all_pins : List GpioPin
all_pins =
    led4_green ∷ led5_red ∷ led6_green ∷ led7_red ∷ led8_green ∷ led9_red ∷ det_pwrdown0
    ∷ det_pwrdown1 ∷ att_le0 ∷ att_le1 ∷ att_le2 ∷ att_le3 ∷ dds_reset ∷ att_rst_n ∷ osc_en_n
    ∷ ext_clk_sel ∷ []

-- `mcp230xx::Mcp23017` and `tca9539::Pin`.
pub data McpPin : Type 0 where
  a0 a1 a2 a3 a4 a5 a6 a7 b0 b1 b2 b3 b4 b5 b6 b7 : McpPin

pub data PcaPin : Type 0 where
  p00 p01 p02 p03 p04 p05 p06 p07 p10 p11 p12 p13 p14 p15 p16 p17 : PcaPin

abbrev pub mcp_pin : GpioPin → McpPin
mcp_pin led4_green = a0
mcp_pin led5_red = a1
mcp_pin led6_green = a2
mcp_pin led7_red = a3
mcp_pin led8_green = a4
mcp_pin led9_red = a5
mcp_pin det_pwrdown0 = a6
mcp_pin det_pwrdown1 = a7
mcp_pin att_le0 = b0
mcp_pin att_le1 = b1
mcp_pin att_le2 = b2
mcp_pin att_le3 = b3
mcp_pin dds_reset = b4
mcp_pin att_rst_n = b5
mcp_pin osc_en_n = b6
mcp_pin ext_clk_sel = b7

abbrev pub pca_pin : GpioPin → PcaPin
pca_pin led4_green = p00
pca_pin led5_red = p01
pca_pin led6_green = p02
pca_pin led7_red = p03
pca_pin led8_green = p04
pca_pin led9_red = p05
pca_pin det_pwrdown0 = p06
pca_pin det_pwrdown1 = p07
pca_pin att_le0 = p10
pca_pin att_le1 = p11
pca_pin att_le2 = p12
pca_pin att_le3 = p13
pca_pin dds_reset = p14
pca_pin att_rst_n = p15
pca_pin osc_en_n = p16
pca_pin ext_clk_sel = p17

-- The latch enable of an attenuator.
abbrev pub latch_pin : Channel → GpioPin
latch_pin Channel.in0 = att_le0
latch_pin Channel.out0 = att_le1
latch_pin Channel.in1 = att_le2
latch_pin Channel.out1 = att_le3

-- The levels and directions of the crate mcp230xx, then of tca9539.
pub data Level : Type 0 where
  low high : Level

pub data Direction : Type 0 where
  input output : Direction

pub data PcaLevel : Type 0 where
  pca_low pca_high : PcaLevel

pub data PcaDirection : Type 0 where
  pca_input pca_output : PcaDirection

abbrev pub pca_level : Level → PcaLevel
pca_level low = pca_low
pca_level _ = pca_high

abbrev pub pca_direction : Direction → PcaDirection
pca_direction output = pca_output
pca_direction _ = pca_input

-- The bus and the drivers of the two chips; `new_default` tells whether it succeeded.
pub record Expanders : Type 1 where
  pub State : Type 0
  pub Fault : Type 0
  pub mcp_new_default : State → State × Bool
  pub pca_new_default : State → State × Bool
  pub mcp_read : ℕ → Action State Fault ℕ
  pub mcp_set_gpio : McpPin → Level → Action State Fault (Unit {0})
  pub mcp_set_direction : McpPin → Direction → Action State Fault (Unit {0})
  pub pca_set_level : PcaPin → PcaLevel → Action State Fault (Unit {0})
  pub pca_set_direction : PcaPin → PcaDirection → Action State Fault (Unit {0})

pub data IoExpander : Type 0 where
  mcp pca : IoExpander

module _ (expanders : Expanders) where
  open expanders use {State, Fault}

  abbrev is_ok : {A : Type 0} → Result Fault A → Bool
  is_ok (ok a) = true
  is_ok (err e) = false

  -- The chip that is fitted, or a panic where `new_default` fails.
  unfoldable pub new_expander : State → Option (State × IoExpander)
  new_expander s =
      let (s, mcp_built) = expanders.mcp_new_default s in
      let (s, answer) = expanders.mcp_read 0 s in
      let (pca_state, pca_built) = expanders.pca_new_default s in
      if mcp_built
      then (if is_ok answer
          then some (s, mcp)
          else if pca_built
          then some (pca_state, pca)
          else none)
      else none

  unfoldable pub set_gpio_dir :
      {Q : Type 0} → IoExpander → GpioPin → Direction → Action State (Error Q) (Unit {0})
  set_gpio_dir mcp pin dir = map_err (λ _. i2c) (expanders.mcp_set_direction (mcp_pin pin) dir)
  set_gpio_dir pca pin dir =
      map_err (λ _. i2c) (expanders.pca_set_direction (pca_pin pin) (pca_direction dir))

  unfoldable pub set_gpio_level :
      {Q : Type 0} → IoExpander → GpioPin → Level → Action State (Error Q) (Unit {0})
  set_gpio_level mcp pin level = map_err (λ _. i2c) (expanders.mcp_set_gpio (mcp_pin pin) level)
  set_gpio_level pca pin level =
      map_err (λ _. i2c) (expanders.pca_set_level (pca_pin pin) (pca_level level))
