-- ===== src/Pounder/HrTimer.antt =====
-- src/hardware/pounder/hrtimer.rs: the registers that `configure_single_shot` writes, or its panic.
pub mod Resolution
use stabilizer.Prelude.{
  ℕ, ◌+◌, ◌-◌, ◌/◌, ◌^◌, ltb, leb, if◌then◌else◌, Option, none, some, u16, u32,
}
use stabilizer.Prelude.Results.{◌>>=◌}
use stabilizer.Prelude.Floats.{Floats, as_u16, as_u32}

-- The prescaler field CKPSC, the period and the first comparator.
pub record Pulse : Type 0 where
  pub prescaler : ℕ
  pub period : ℕ
  pub comparator : ℕ

-- The logarithm of the clock divider, plus one; `none` is the panic.
unfoldable pub choose_div : ℕ → Option ℕ
choose_div end =
    if ltb end 0xFFDF
    then some 1
    else if ltb (end / 2) 0xFFDF
    then some 2
    else if ltb (end / 4) 0xFFDF
    then some 3
    else none

unfoldable pub choose_period : ℕ → ℕ → Option ℕ
choose_period end div =
    let period = u16 (end / 2 ^ (div - 1)) in if ltb 2 period then some period else none

-- `assert!(delay >= 3)`.
abbrev checked_delay : ℕ → Pulse → Option Pulse
checked_delay delay pulse = if leb 3 delay then some pulse else none

-- `end` and the delay are in cycles of the clock.
unfoldable pub single_shot : ℕ → ℕ → Option Pulse
unfolding choose_div choose_period
single_shot end delay = do
  div ← choose_div end
  period ← choose_period end div
  checked_delay delay (record { prescaler = div + 4; period = period; comparator = delay })

module _ (floats : Floats) where
  open floats use {Float, times}

  -- `delay` and `duration` in seconds, `clk` in Hz. An addition past 2^32 is a panic of the debug
  -- build, and wraps to 0 in the release.
  unfoldable pub configure_single_shot :
      (Float → Float → Float) → Float → Float → Float → Option Pulse
  configure_single_shot plus clk delay duration =
      single_shot (u32 (as_u32 floats (times (plus delay duration) clk) + 1))
        (as_u16 floats (times delay clk))
