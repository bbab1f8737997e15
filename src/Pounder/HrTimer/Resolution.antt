-- ===== src/Pounder/HrTimer/Resolution.antt =====
-- The clock divider that the single shot takes.
use stabilizer.Prelude.{
  ℕ, zero, suc, ◌+◌, ◌-◌, ◌/◌, ◌%◌, ◌^◌, ◌≡◌, ◌≤◌, ◌<◌, ◌⊎◌, arith, inl, inr, ap, sym, subst, some,
}
use stabilizer.Pounder.HrTimer.{Pulse, single_shot, choose_div, choose_period, checked_delay}
use stabilizer.Prelude.Results.{some_steps}
use mathlib.Core.Option.{some-injective}

-- The prescaler is valid, the period is what the divided clock counts to and fits its register, and
-- a smaller divider would not fit.
abbrev pub IsFinest : ℕ → Pulse → Type 0
IsFinest end p =
    (5 ≤ p.prescaler)
    × (p.prescaler ≤ 7)
    × (p.period ≡ end / 2 ^ (p.prescaler - 5))
    × (2 < p.period)
    × (p.period < 0xFFDF)
    × ((k : ℕ) → k < p.prescaler - 5 → 0xFFDF ≤ end / 2 ^ k)

choose_div-cases :
    (end div : ℕ)
    → choose_div end ≡ some div
    → ((div ≡ 1) × (end < 0xFFDF))
      ⊎ (((div ≡ 2) × (0xFFDF ≤ end) × (end / 2 < 0xFFDF))
          ⊎ ((div ≡ 3) × (0xFFDF ≤ end / 2) × (end / 4 < 0xFFDF)))
unfolding choose_div
choose_div-cases end div h = ground arith

choose_period-lem :
    (end div period : ℕ)
    → choose_period end div ≡ some period
    → (period ≡ end / 2 ^ (div - 1) % 65536) × (2 < period)
unfolding choose_period
choose_period-lem end div period h = ground arith

checked : (delay : ℕ) (q p : Pulse) → checked_delay delay q ≡ some p → (q ≡ p) × (3 ≤ delay)
checked delay q p h = ground (arith, some-injective q p)

-- Each divider is taken where the smaller ones do not fit.
abbrev FinestAt : ℕ → ℕ → ℕ → ℕ → Type 0
FinestAt end delay period div =
    choose_period end div ≡ some period
    → IsFinest end (record { prescaler = div + 4; period = period; comparator = delay })

finest1 : (end delay period : ℕ) → end < 0xFFDF → FinestAt end delay period 1
finest1 end delay period h p =
    let (e, big) = choose_period-lem end 1 period p in
    (omega arith, omega arith, omega arith, big, omega arith, λ k lt. absurd (omega arith))

finest2 : (end delay period : ℕ) → 0xFFDF ≤ end → end / 2 < 0xFFDF → FinestAt end delay period 2
finest2 end delay period low h p =
    let (e, big) = choose_period-lem end 2 period p in
    (omega arith, omega arith, omega arith, big, omega arith, smaller)
  where
    smaller : (k : ℕ) → k < 1 → 0xFFDF ≤ end / 2 ^ k
    smaller zero lt = omega arith
    smaller (suc k) lt = absurd (omega arith)

finest3 : (end delay period : ℕ) → 0xFFDF ≤ end / 2 → end / 4 < 0xFFDF → FinestAt end delay period 3
finest3 end delay period low h p =
    let (e, big) = choose_period-lem end 3 period p in
    (omega arith, omega arith, omega arith, big, omega arith, smaller)
  where
    smaller : (k : ℕ) → k < 2 → 0xFFDF ≤ end / 2 ^ k
    smaller zero lt = omega arith
    smaller (suc zero) lt = omega arith
    smaller (suc (suc k)) lt = absurd (omega arith)

finest : (end delay div period : ℕ) → choose_div end ≡ some div → FinestAt end delay period div
finest end delay div period d = elim (choose_div-cases end div d) [
  | inl (one, h) ↦ subst (FinestAt end delay period) (sym one) (finest1 end delay period h)
  | inr rest ↦ elim rest [
    | inl (two, low, h) ↦
        subst (FinestAt end delay period) (sym two) (finest2 end delay period low h)
    | inr (three, low, h) ↦
        subst (FinestAt end delay period) (sym three) (finest3 end delay period low h)
  ]
]

-- If the single shot does not panic: the prescaler is 5 to 7, the period is the end in cycles over
-- the divider, above 2 and below 0xFFDF, no smaller divider would fit, and the comparator is the
-- delay, which is at least 3.
pub single_shot-IsFinest :
    (end delay : ℕ) (p : Pulse)
    → single_shot end delay ≡ some p
    → IsFinest end p × (p.comparator ≡ delay) × (3 ≤ delay)
unfolding single_shot
single_shot-IsFinest end delay p h =
    let (div, d, h1) = some_steps (choose_div end) _ p h in
    let (period, q, h2) = some_steps (choose_period end div) _ p h1 in
    let (same, three) = checked delay _ p h2 in
    (
      subst (IsFinest end) same (finest end delay div period d q),
      ap (λ r. r.comparator) (sym same),
      three,
    )
