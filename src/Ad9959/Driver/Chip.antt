-- ===== src/Ad9959/Driver/Chip.antt =====
-- The contract of a board on which the chip answers: its registers, after the datasheet, and what
-- a write stores and a read gives.
use stabilizer.Prelude.{ℕ, ◌≡◌, if◌then◌else◌, List, [], ◌∷◌, refl}
use stabilizer.Prelude.Results.{ok}
use stabilizer.Prelude.Effects.{Action}
use stabilizer.Prelude.Floats.{Floats}
use stabilizer.Ad9959.{Register, address, Error}
use stabilizer.Ad9959.Serializer.Device.{Dds, accept, width, is_selected}
use stabilizer.Ad9959.Driver.{Board, BitFields, Ad9959, write, read}

pub record Registers : Type 0 where
  pub dds : Dds
  pub fr1 : List ℕ

-- A write to a register.
unfoldable pub store : Register → List ℕ → Registers → Registers
store Register.fr1 bytes r = record r { fr1 = bytes }
store reg bytes r = record r { dds = accept (record { register = reg; value = bytes }) r.dds }

-- The channel that a read goes to, the lowest that is selected.
abbrev pub selected_channel : ℕ → ℕ
selected_channel select =
    if is_selected select 0
    then 0
    else if is_selected select 1
    then 1
    else if is_selected select 2
    then 2
    else 3

-- A read of one of the registers that the driver reads.
unfoldable pub stored : Register → Registers → List ℕ
stored Register.csr r = r.dds.select ∷ []
stored Register.fr1 r = r.fr1
stored Register.cftw0 r = r.dds.frequency (selected_channel r.dds.select)
stored Register.cpow0 r = r.dds.phase (selected_channel r.dds.select)
stored Register.acr r = r.dds.amplitude (selected_channel r.dds.select)
stored _ r = []

abbrev pub IsRead : Register → Type 0
IsRead Register.csr = Unit
IsRead Register.fr1 = Unit
IsRead Register.cftw0 = Unit
IsRead Register.cpow0 = Unit
IsRead Register.acr = Unit
IsRead _ = ⊥

module _ (board : Board) where
  open board use {State}

  -- Every access of the chip succeeds; a write stores, and a read changes nothing in the chip.
  pub record Chip : Type 0 where
    pub view : State → Registers
    pub write_lem :
        (reg : Register) (bytes : List ℕ) (b : State)
        → (c : State) × (board.write (address reg) bytes b ≡ (c, ok tt))
          × (view c ≡ store reg bytes (view b))
    pub read_lem :
        (reg : Register) (b : State)
        → IsRead reg
        → (c : State) × (board.read (address reg) (width reg) b ≡ (c, ok (stored reg (view b))))
          × (view c ≡ view b)

module _ (floats : Floats) (bits : BitFields) (board : Board) (chip : Chip board) where
  open board use {State}

  abbrev pub Driver : Type 0
  Driver = Ad9959 floats bits board

  -- The step succeeds with a result, leaves the fields of the driver, and the chip with registers.
  abbrev pub Runs : {A : Type 0} → Action Driver Error A → Driver → A → Registers → Type 0
  Runs step d a r = (b : State) × (step d ≡ (record d { interface = b }, ok a)) × (chip.view b ≡ r)

  pub write-Runs :
      (reg : Register) (bytes : List ℕ) (d : Driver)
      → Runs (write floats bits board reg bytes) d tt (store reg bytes (chip.view d.interface))
  unfolding write
  write-Runs reg bytes d = let (b, e, v) = chip.write_lem reg bytes d.interface in (b, rw e refl, v)

  pub read-Runs :
      (reg : Register) (d : Driver)
      → IsRead reg
      → Runs
          (read floats bits board reg (width reg))
          d
          (stored reg (chip.view d.interface))
          (chip.view d.interface)
  unfolding read
  read-Runs reg d h = let (b, e, v) = chip.read_lem reg d.interface h in (b, rw e refl, v)
