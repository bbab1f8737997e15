-- ===== src/Ad9959/Serializer/Device.antt =====
-- What an AD9959 makes of a stream of bytes, after its datasheet: a byte of address, then as many
-- bytes as that register is wide. A write to the channel select register picks the channels that
-- later writes go to.
use stabilizer.Prelude.{
  ℕ, Bool, zero, suc, ◌+◌, ◌≡◌, ◌≤◌, refl, arith, List, [], ◌∷◌, ◌++◌, Option, none, some, length,
  get_or, test_bit, if◌then◌else◌, length-append,
}
use stabilizer.Prelude.Results.{◌>>=◌}
use stabilizer.Ad9959.{Register, address}

pub record Write : Type 0 where
  pub register : Register
  pub value : List ℕ

-- Bytes of the register at each address.
abbrev pub width : Register → ℕ
width Register.csr = 1
width Register.fr1 = 3
width Register.fr2 = 2
width Register.cfr = 3
width Register.cpow0 = 2
width Register.acr = 3
width Register.lsrr = 2
width _ = 4

abbrev register_list : List Register
register_list =
    Register.csr ∷ Register.fr1 ∷ Register.fr2 ∷ Register.cfr ∷ Register.cftw0 ∷ Register.cpow0
    ∷ Register.acr ∷ Register.lsrr ∷ Register.rdw ∷ Register.fdw ∷ Register.cw1 ∷ Register.cw2
    ∷ Register.cw3 ∷ Register.cw4 ∷ Register.cw5 ∷ Register.cw6 ∷ Register.cw7 ∷ Register.cw8
    ∷ Register.cw9 ∷ Register.cw10 ∷ Register.cw11 ∷ Register.cw12 ∷ Register.cw13 ∷ Register.cw14
    ∷ Register.cw15 ∷ []

abbrev at_index : List Register → ℕ → Option Register
at_index [] i = none
at_index (r ∷ rs) zero = some r
at_index (r ∷ rs) (suc i) = at_index rs i

unfoldable pub register_at : ℕ → Option Register
register_at = at_index register_list

pub register_at-address : (r : Register) → register_at (address r) ≡ some r
unfolding register_at
register_at-address Register.csr = refl
register_at-address _ = refl

-- The first `n` bytes and the rest, if there are as many.
split_off : ℕ → List ℕ → Option (List ℕ × List ℕ)
split_off zero xs = some ([], xs)
split_off (suc n) [] = none
split_off (suc n) (x ∷ xs) = do (front, back) ← split_off n xs; some (x ∷ front, back)

split_off-append : (xs ys : List ℕ) → split_off (length xs) (xs ++ ys) ≡ some (xs, ys)
unfolding split_off
split_off-append [] ys = refl
split_off-append (x ∷ xs) ys = ground (arith, split_off-append xs ys)

parse_fuel : ℕ → List ℕ → Option (List Write)
parse_fuel zero [] = some []
parse_fuel zero (b ∷ bytes) = none
parse_fuel (suc n) [] = some []
parse_fuel (suc n) (b ∷ bytes) = do
  r ← register_at b
  (v, rest) ← split_off (width r) bytes
  ws ← parse_fuel n rest
  some (record { register = r; value = v } ∷ ws)

-- Each write takes a byte at least, so the number of bytes is fuel enough.
pub parse : List ℕ → Option (List Write)
unfolding parse_fuel
parse bytes = parse_fuel (length bytes) bytes

abbrev pub encode : List Write → List ℕ
encode [] = []
encode (w ∷ ws) = address w.register ∷ (w.value ++ encode ws)

-- Each value is as wide as its register.
abbrev pub Fits : List Write → Type 0
Fits [] = Unit
Fits (w ∷ ws) = (length w.value ≡ width w.register) × Fits ws

parse_fuel-encode :
    (n : ℕ) (ws : List Write)
    → length (encode ws) ≤ n
    → Fits ws
    → parse_fuel n (encode ws) ≡ some ws
unfolding parse_fuel
parse_fuel-encode zero [] h f = refl
parse_fuel-encode zero (w ∷ ws) h f = absurd (omega arith)
parse_fuel-encode (suc n) [] h f = refl
parse_fuel-encode (suc n) (w ∷ ws) h f =
    rw (register_at-address w.register, value_read, parse_fuel-encode n ws shorter f.1)
  where
    value_read : split_off (width w.register) (w.value ++ encode ws) ≡ some (w.value, encode ws)
    value_read = rw (← f.0) (split_off-append w.value (encode ws))

    shorter : length (encode ws) ≤ n
    shorter = omega (arith, length-append w.value (encode ws))

pub parse-encode : (ws : List Write) → Fits ws → parse (encode ws) ≡ some ws
unfolding parse
parse-encode ws f = parse_fuel-encode (length (encode ws)) ws (omega arith) f

-- The channel select register, and for each of the channels 0 to 3 its words of frequency, phase,
-- amplitude and ramp rate.
pub record Dds : Type 0 where
  pub select : ℕ
  pub frequency : ℕ → List ℕ
  pub phase : ℕ → List ℕ
  pub amplitude : ℕ → List ℕ
  pub ramp_rate : ℕ → List ℕ

-- Channel `c` is selected by bit `4 + c`.
abbrev pub is_selected : ℕ → ℕ → Bool
is_selected select c = test_bit select (4 + c)

abbrev pub update_selected : ℕ → List ℕ → (ℕ → List ℕ) → ℕ → List ℕ
update_selected select value old c = if is_selected select c then value else old c

accept_at : Register → List ℕ → Dds → Dds
accept_at Register.csr value d = record d { select = get_or value 0 0 }
accept_at Register.cftw0 value d = record d {
  frequency = update_selected d.select value d.frequency;
}
accept_at Register.cpow0 value d = record d { phase = update_selected d.select value d.phase }
accept_at Register.acr value d = record d { amplitude = update_selected d.select value d.amplitude }
accept_at Register.lsrr value d = record d {
  ramp_rate = update_selected d.select value d.ramp_rate;
}
accept_at _ value d = d

unfoldable pub accept : Write → Dds → Dds
unfolding accept_at
accept w d = accept_at w.register w.value d

abbrev pub accept_all : List Write → Dds → Dds
accept_all [] d = d
accept_all (w ∷ ws) d = accept_all ws (accept w d)

pub accept_all-append :
    (ws vs : List Write) (d : Dds) → accept_all (ws ++ vs) d ≡ accept_all vs (accept_all ws d)
accept_all-append [] vs d = refl
accept_all-append (w ∷ ws) vs d = accept_all-append ws vs (accept w d)
