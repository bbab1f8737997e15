-- ===== src/Hardware/Codes/Order.antt =====
-- The codes of the DAC are the signed numbers in their order.
use stabilizer.Prelude.{ℕ, ◌+◌, ◌-◌, ◌≡◌, ◌<◌, ltb, min, Bool, true, false, arith, if◌then◌else◌}
use stabilizer.Hardware.Codes.{dac_code, dac_to_i16, saturating_add}

-- The order of i16, by the sign.
abbrev pub less_i16 : ℕ → ℕ → Bool
less_i16 a b =
    if ltb a 32768
    then (if ltb b 32768 then ltb a b else false)
    else (if ltb b 32768 then true else ltb a b)

read_back : (a : ℕ) → a < 65536 → dac_to_i16 (dac_code a) ≡ a
unfolding dac_code dac_to_i16
read_back a h = omega arith

less_code :
    (a b : ℕ)
    → a < 65536
    → b < 65536
    → ltb (dac_code a).dac_word (dac_code b).dac_word ≡ less_i16 a b
unfolding dac_code
less_code a b h k = ground arith

code_sum :
    (a b : ℕ)
    → a < 65536
    → b < 65536
    → (dac_code (saturating_add a b)).dac_word
      ≡ min ((dac_code a).dac_word + (dac_code b).dac_word - 32768) 65535
unfolding dac_code
code_sum a b h k = ground arith

-- For bit patterns a and b of i16: the code of a reads back as a, the codes compare as the signed
-- numbers do, and the code of their saturating sum is the sum of the codes less 2^15, kept between
-- 0 and 65535.
pub dac_code-Agrees :
    (a b : ℕ)
    → a < 65536
    → b < 65536
    → (dac_to_i16 (dac_code a) ≡ a)
      × (ltb (dac_code a).dac_word (dac_code b).dac_word ≡ less_i16 a b)
      × ((dac_code (saturating_add a b)).dac_word
          ≡ min ((dac_code a).dac_word + (dac_code b).dac_word - 32768) 65535)
dac_code-Agrees a b h k = (read_back a h, less_code a b h k, code_sum a b h k)
