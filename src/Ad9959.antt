-- ===== src/Ad9959.antt =====
-- ad9959/src/lib.rs: the types of the AD9959 driver. A set of channels is its `u8` of flags.
pub mod Channel
pub mod Serializer
pub mod Driver
use stabilizer.Prelude.{ℕ}

pub data Mode : Type 0 where
  single_bit_two_wire single_bit_three_wire two_bit_serial four_bit_serial : Mode

-- `mode as u8`.
abbrev pub mode_bits : Mode → ℕ
mode_bits single_bit_two_wire = 0
mode_bits single_bit_three_wire = 2
mode_bits two_bit_serial = 4
mode_bits four_bit_serial = 6

pub data Register : Type 0 where
  csr fr1 fr2 cfr cftw0 cpow0 acr lsrr rdw fdw : Register
  cw1 cw2 cw3 cw4 cw5 cw6 cw7 cw8 cw9 cw10 cw11 cw12 cw13 cw14 cw15 : Register

-- `register as u8`.
abbrev pub address : Register → ℕ
address csr = 0
address fr1 = 1
address fr2 = 2
address cfr = 3
address cftw0 = 4
address cpow0 = 5
address acr = 6
address lsrr = 7
address rdw = 8
address fdw = 9
address cw1 = 10
address cw2 = 11
address cw3 = 12
address cw4 = 13
address cw5 = 14
address cw6 = 15
address cw7 = 16
address cw8 = 17
address cw9 = 18
address cw10 = 19
address cw11 = 20
address cw12 = 21
address cw13 = 22
address cw14 = 23
address cw15 = 24

pub data Error : Type 0 where
  interface check bounds pin frequency : Error
