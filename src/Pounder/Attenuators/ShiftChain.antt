-- ===== src/Pounder/Attenuators/ShiftChain.antt =====
-- The attenuators as one chain of shift registers with latched outputs, and what the interface does
-- to it.
use stabilizer.Prelude.{
  ℕ, ◌*◌, ◌-◌, ◌≡◌, ◌≢◌, ◌≤◌, refl, arith, ap, sym, subst, ◌∙◌, ◌==◌, true, if◌then◌else◌, List, [],
  ◌∷◌, length, get_or, set, length-set, u8,
}
use stabilizer.Prelude.Results.{ok}
use stabilizer.Prelude.Floats.{Floats}
use stabilizer.Pounder.{Channel, in0, out0, in1, out1, channel_index}
use stabilizer.Pounder.Attenuators.{
  AttenuatorInterface, is_valid, validate, attenuation_code, attenuation_of, zeros, set_attenuation,
  get_attenuation,
}

-- The bytes in the shift registers, and the latched byte of each channel.
pub record Attenuators : Type 0 where
  pub shift : List ℕ
  pub outputs : Channel → ℕ

abbrev pub latched : Channel → Attenuators → Attenuators
latched channel a = record a {
  outputs = λ k.
      if channel_index channel == channel_index k
      then get_or a.shift (channel_index k) 0
      else a.outputs k;
}

-- A transfer shifts four bytes in and the four bytes before them out; a latch takes the byte of its
-- channel over.
pub record ShiftChain {Q : Type 0} (device : AttenuatorInterface Q) : Type 0 where
  pub view : device.State → Attenuators
  pub transfer_lem :
      (bytes : List ℕ) (s : device.State)
      → length bytes ≡ 4
      → (t : device.State) × (device.transfer_attenuators bytes s ≡ (t, ok (view s).shift))
        × (view t ≡ record (view s) { shift = bytes })
  pub latch_lem :
      (channel : Channel) (s : device.State)
      → (t : device.State) × (device.latch_attenuator channel s ≡ (t, ok tt))
        × (view t ≡ latched channel (view s))

-- The outputs are what is in the shift registers, so a latch of one channel changes no other.
abbrev pub InSync : Attenuators → Type 0
InSync a = (length a.shift ≡ 4) × ((k : Channel) → a.outputs k ≡ get_or a.shift (channel_index k) 0)

get_or-set :
    (l : List ℕ) (c k : Channel) (v : ℕ)
    → length l ≡ 4
    → get_or (set l (channel_index c) v) (channel_index k) 0
      ≡ (if channel_index c == channel_index k then v else get_or l (channel_index k) 0)
get_or-set [] c k v h = absurd (omega arith)
get_or-set (x ∷ []) c k v h = absurd (omega arith)
get_or-set (x ∷ y ∷ []) c k v h = absurd (omega arith)
get_or-set (x ∷ y ∷ z ∷ []) c k v h = absurd (omega arith)
get_or-set (x ∷ y ∷ z ∷ w ∷ l) in0 in0 v h = refl
get_or-set (x ∷ y ∷ z ∷ w ∷ l) in0 out0 v h = refl
get_or-set (x ∷ y ∷ z ∷ w ∷ l) in0 in1 v h = refl
get_or-set (x ∷ y ∷ z ∷ w ∷ l) in0 out1 v h = refl
get_or-set (x ∷ y ∷ z ∷ w ∷ l) out0 in0 v h = refl
get_or-set (x ∷ y ∷ z ∷ w ∷ l) out0 out0 v h = refl
get_or-set (x ∷ y ∷ z ∷ w ∷ l) out0 in1 v h = refl
get_or-set (x ∷ y ∷ z ∷ w ∷ l) out0 out1 v h = refl
get_or-set (x ∷ y ∷ z ∷ w ∷ l) in1 in0 v h = refl
get_or-set (x ∷ y ∷ z ∷ w ∷ l) in1 out0 v h = refl
get_or-set (x ∷ y ∷ z ∷ w ∷ l) in1 in1 v h = refl
get_or-set (x ∷ y ∷ z ∷ w ∷ l) in1 out1 v h = refl
get_or-set (x ∷ y ∷ z ∷ w ∷ l) out1 in0 v h = refl
get_or-set (x ∷ y ∷ z ∷ w ∷ l) out1 out0 v h = refl
get_or-set (x ∷ y ∷ z ∷ w ∷ l) out1 in1 v h = refl
get_or-set (x ∷ y ∷ z ∷ w ∷ l) out1 out1 v h = refl

index-injective : (c k : Channel) → channel_index c ≡ channel_index k → c ≡ k
index-injective in0 in0 h = refl
index-injective out0 out0 h = refl
index-injective in1 in1 h = refl
index-injective out1 out1 h = refl
index-injective _ _ h = absurd (omega arith)

module _ {Q : Type 0} (floats : Floats) (device : AttenuatorInterface Q)
    (chain : ShiftChain device) where
  open floats use {Float}
  open device use {State}

  -- What the channel outputs for a code: the code in the upper six bits, active low.
  abbrev pub output_byte : ℕ → ℕ
  output_byte code = 255 - code * 4

  -- The attenuation is accepted; the output of the channel has its code, those of the others are as
  -- they were, and shift registers and outputs are in sync.
  abbrev pub Programs : Channel → Float → State → Type 0
  Programs channel attenuation s =
      let code = attenuation_code floats device attenuation in
      (t : State) × (set_attenuation floats device channel attenuation s
        ≡ (t, ok (attenuation_of floats device code)))
      × ((chain.view t).outputs channel ≡ output_byte code)
      × ((k : Channel)
          → channel_index channel ≢ channel_index k
          → (chain.view t).outputs k ≡ (chain.view s).outputs k)
      × InSync (chain.view t)

  programmed : Channel → ℕ → Attenuators → Attenuators
  programmed channel byte a =
      latched channel (record a { shift = set a.shift (channel_index channel) byte })

  programmed-InSync :
      (c : Channel) (byte : ℕ) (a : Attenuators)
      → InSync a
      → ((programmed c byte a).outputs c ≡ byte)
        × ((k : Channel)
            → channel_index c ≢ channel_index k
            → (programmed c byte a).outputs k ≡ a.outputs k)
        × InSync (programmed c byte a)
  unfolding programmed
  programmed-InSync c byte a (four, sync) = (
    ground (arith, get_or-set a.shift c c byte four),
    (λ k ne. ground arith),
    (
      length-set a.shift (channel_index c) byte ∙ four,
      λ k. ground (arith, get_or-set a.shift c k byte four, sync k),
    ),
  )

  -- Over attenuators that are a shift chain with latched outputs, in sync, and an attenuation from
  -- 0 to 31.5 dB whose code is at most 63: set_attenuation succeeds with the value of the code;
  -- the output of the channel has the inverted code in its upper six bits, the other outputs are
  -- as they were, and shift registers and outputs are in sync again.
  pub set_attenuation-Programs :
      (channel : Channel) (attenuation : Float) (s : State)
      → is_valid floats device attenuation ≡ true
      → attenuation_code floats device attenuation ≤ 63
      → InSync (chain.view s)
      → Programs channel attenuation s
  unfolding set_attenuation validate programmed
  set_attenuation-Programs channel attenuation s valid small (four, sync) =
      let code = attenuation_code floats device attenuation in
      let shift = (chain.view s).shift in
      let byte : 255 - u8 (code * 4) ≡ output_byte code = omega arith in
      let next_shift = set shift (channel_index channel) (output_byte code) in
      let fits = length-set shift (channel_index channel) (output_byte code) ∙ four in
      let (t, e, v) = chain.transfer_lem (zeros floats device) s refl in
      let (t2, e2, v2) = chain.transfer_lem next_shift t fits in
      let (t3, e3, v3) = chain.latch_lem channel t2 in
      let view3 : chain.view t3 ≡ programmed channel (output_byte code) (chain.view s) =
        v3
        ∙ ap (latched channel) (v2 ∙ ap (λ (a : Attenuators). record a { shift = next_shift }) v) in
      let (own, others, in_sync) =
        programmed-InSync channel (output_byte code) (chain.view s) (four, sync) in
      (
        t3,
        rw (valid, e, byte, e2, e3) refl,
        rw view3 own,
        (λ k ne. rw view3 (others k ne)),
        subst InSync (sym view3) in_sync,
      )

  -- The second transfer of `get_attenuation` shifts the zeros of the first out again.
  abbrev pub ReadsZeros : Channel → State → Type 0
  ReadsZeros channel s =
      (t : State) × (get_attenuation floats device channel s
        ≡ (t, ok (attenuation_of floats device 63)))
      × (chain.view t ≡ chain.view s)

  zero_byte : (channel : Channel) → get_or (zeros floats device) (channel_index channel) 0 ≡ 0
  zero_byte in0 = refl
  zero_byte out0 = refl
  zero_byte in1 = refl
  zero_byte out1 = refl

  -- Over attenuators that are a shift chain of four bytes, whatever they hold: get_attenuation
  -- leaves them as they were and gives the attenuation of code 63, since its second transfer
  -- shifts out the zeros of the first.
  pub get_attenuation-ReadsZeros :
      (channel : Channel) (s : State) → length (chain.view s).shift ≡ 4 → ReadsZeros channel s
  unfolding get_attenuation
  get_attenuation-ReadsZeros channel s four =
      let (t, e, v) = chain.transfer_lem (zeros floats device) s refl in
      let (t2, e2, v2) = chain.transfer_lem (chain.view s).shift t four in
      (t2, rw (e, e2, v, zero_byte channel) refl, rw (v2, v) refl)
