-- ===== src/Ad9959/Driver/Modified.antt =====
-- What a write to one channel leaves in the registers of the chip.
use stabilizer.Prelude.{ℕ, ◌≡◌, ◌≢◌, ◌<◌, List, [], ◌∷◌, refl}
use stabilizer.Ad9959.{Mode, Register}
use stabilizer.Ad9959.Serializer.Device.{Dds, accept}
use stabilizer.Ad9959.Driver.Chip.{Registers, store, stored}
use stabilizer.Ad9959.Driver.Access.{select_only, selected, is_selected-same, is_selected-other}

-- The words of the channels other than `c` are the same.
abbrev pub KeepsOthers : ℕ → Dds → Dds → Type 0
KeepsOthers c old d =
    (k : ℕ)
    → k < 4
    → c ≢ k
    → (d.frequency k ≡ old.frequency k)
      × (d.phase k ≡ old.phase k)
      × (d.amplitude k ≡ old.amplitude k)
      × (d.ramp_rate k ≡ old.ramp_rate k)

abbrev pub IsWord : Register → Type 0
IsWord Register.cftw0 = Unit
IsWord Register.cpow0 = Unit
IsWord Register.acr = Unit
IsWord _ = ⊥

-- What `modify_channel` leaves in the registers.
abbrev pub modified : Mode → ℕ → Register → List ℕ → Registers → Registers
modified mode c reg bytes r = store reg bytes (store Register.csr (select_only mode c ∷ []) r)

pub stored-modified :
    (mode : Mode) (c : ℕ) (reg : Register) (bytes : List ℕ) (r : Registers)
    → c < 4
    → IsWord reg
    → stored reg (store Register.csr (select_only mode c ∷ []) (modified mode c reg bytes r))
      ≡ bytes
unfolding stored store accept
stored-modified mode c Register.cftw0 bytes r hc h =
    rw (selected mode c hc, is_selected-same mode c hc) refl
stored-modified mode c Register.cpow0 bytes r hc h =
    rw (selected mode c hc, is_selected-same mode c hc) refl
stored-modified mode c Register.acr bytes r hc h =
    rw (selected mode c hc, is_selected-same mode c hc) refl
stored-modified mode c Register.csr bytes r hc h = absurd h
stored-modified mode c _ bytes r hc h = absurd h

pub modified-KeepsOthers :
    (mode : Mode) (c : ℕ) (reg : Register) (bytes : List ℕ) (r : Registers)
    → c < 4
    → IsWord reg
    → KeepsOthers c r.dds (modified mode c reg bytes r).dds
unfolding store accept
modified-KeepsOthers mode c Register.cftw0 bytes r hc h k hk ne =
    rw (is_selected-other mode c k hc hk ne) (refl, refl, refl, refl)
modified-KeepsOthers mode c Register.cpow0 bytes r hc h k hk ne =
    rw (is_selected-other mode c k hc hk ne) (refl, refl, refl, refl)
modified-KeepsOthers mode c Register.acr bytes r hc h k hk ne =
    rw (is_selected-other mode c k hc hk ne) (refl, refl, refl, refl)
modified-KeepsOthers mode c Register.csr bytes r hc h k hk ne = absurd h
modified-KeepsOthers mode c _ bytes r hc h k hk ne = absurd h
