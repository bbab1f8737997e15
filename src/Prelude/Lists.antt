-- ===== src/Prelude/Lists.antt =====
-- Lists measured and indexed by native numbers, under the library's names, and `overwrite`, the
-- copy of a slice into an array at an offset.
use Prim.Native.Nat.{ℕ, zero, suc, ◌+◌, ◌≤◌}
use mathlib.Core.Path.{◌≡◌, refl, ap}
use mathlib.Core.List.{List, [], ◌∷◌, ◌++◌}
use mathlib.Core.Option.{Option, none, some}
use mathlib.Core.Option
use native.Mathlib.Omega.{arith}

module _ {ℓ} {A : Type ℓ} where
  abbrev pub length : List A → ℕ
  length [] = 0
  length (x ∷ xs) = suc (length xs)

  abbrev pub get_or : List A → ℕ → A → A
  get_or [] i d = d
  get_or (x ∷ xs) zero d = x
  get_or (x ∷ xs) (suc i) d = get_or xs i d

  -- A write out of bounds changes nothing.
  abbrev pub set : List A → ℕ → A → List A
  set [] i v = []
  set (x ∷ xs) zero v = v ∷ xs
  set (x ∷ xs) (suc i) v = x ∷ set xs i v

  abbrev pub take : ℕ → List A → List A
  take zero xs = []
  take (suc n) [] = []
  take (suc n) (x ∷ xs) = x ∷ take n xs

  abbrev pub drop : ℕ → List A → List A
  drop zero xs = xs
  drop (suc n) [] = []
  drop (suc n) (x ∷ xs) = drop n xs

  abbrev pub replicate : ℕ → A → List A
  replicate zero a = []
  replicate (suc n) a = a ∷ replicate n a

  -- `array[i..][..ys.len()].copy_from_slice(ys)`: `none` is the panic of a slice out of range.
  unfoldable pub overwrite : List A → ℕ → List A → Option (List A)
  overwrite xs zero [] = some xs
  overwrite [] zero (y ∷ ys) = none
  overwrite (x ∷ xs) zero (y ∷ ys) = Option.map (◌∷◌ y) (overwrite xs zero ys)
  overwrite [] (suc i) ys = none
  overwrite (x ∷ xs) (suc i) ys = Option.map (◌∷◌ x) (overwrite xs i ys)

module _ {ℓ} {A : Type ℓ} where
  pub length-append : (xs ys : List A) → length (xs ++ ys) ≡ length xs + length ys
  length-append [] ys = omega arith
  length-append (x ∷ xs) ys = omega (arith, length-append xs ys)

  pub length-set : (xs : List A) (i : ℕ) (v : A) → length (set xs i v) ≡ length xs
  length-set [] i v = refl
  length-set (x ∷ xs) zero v = refl
  length-set (x ∷ xs) (suc i) v = ap suc (length-set xs i v)

  pub length-replicate : (n : ℕ) (a : A) → length (replicate n a) ≡ n
  length-replicate zero a = refl
  length-replicate (suc n) a = ap suc (length-replicate n a)

  pub take-append : (xs ys : List A) → take (length xs) (xs ++ ys) ≡ xs
  take-append [] ys = refl
  take-append (x ∷ xs) ys = ap (◌∷◌ x) (take-append xs ys)

  -- A copy that fits replaces its part of the array and keeps the rest.
  pub overwrite-append :
      (done room ys rest : List A)
      → length room ≡ length ys
      → overwrite (done ++ (room ++ rest)) (length done) ys ≡ some (done ++ (ys ++ rest))
  unfolding overwrite
  overwrite-append [] [] [] rest h = lem rest
    where
      lem : (r : List A) → overwrite r zero [] ≡ some r
      lem [] = refl
      lem (x ∷ r) = refl
  overwrite-append [] [] (y ∷ ys) rest h = absurd (omega arith)
  overwrite-append [] (x ∷ room) [] rest h = absurd (omega arith)
  overwrite-append [] (x ∷ room) (y ∷ ys) rest h =
      ap (Option.map (◌∷◌ y)) (overwrite-append [] room ys rest (omega arith))
  overwrite-append (d ∷ done) room ys rest h =
      ap (Option.map (◌∷◌ d)) (overwrite-append done room ys rest h)

  -- A list of at least `n` items falls into its first `n` and the rest.
  pub split_at :
      (n : ℕ) (xs : List A)
      → n ≤ length xs
      → (front : List A) × (back : List A) × (xs ≡ front ++ back) × (length front ≡ n)
  split_at zero xs h = ([], xs, refl, refl)
  split_at (suc n) [] h = absurd (omega arith)
  split_at (suc n) (x ∷ xs) h =
      let (front, back, e, l) = split_at n xs (omega arith) in
      (x ∷ front, back, ap (◌∷◌ x) e, ap suc l)

  -- The same from equations for the array and the offset.
  pub overwrite_fits :
      (xs done room ys : List A) (i : ℕ)
      → xs ≡ done ++ room
      → i ≡ length done
      → length ys ≤ length room
      → (rest : List A) × (overwrite xs i ys ≡ some (done ++ (ys ++ rest)))
        × (length ys + length rest ≡ length room)
  overwrite_fits xs done room ys i laid at fits =
      let (front, rest, e, l) = split_at (length ys) room fits in
      (
        rest,
        rw (laid, at, e) (overwrite-append done front ys rest l),
        rw e (omega (arith, length-append front rest)),
      )
