-- ===== src/Ad9959/Channel.antt =====
-- ad9959/src/lib.rs, the flags of `Channel`.
use stabilizer.Prelude.{ℕ}

abbrev pub one : ℕ
one = 16

abbrev pub two : ℕ
two = 32

abbrev pub three : ℕ
three = 64

abbrev pub four : ℕ
four = 128

abbrev pub all : ℕ
all = 240
