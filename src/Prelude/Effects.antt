-- ===== src/Prelude/Effects.antt =====
-- Code that changes a state and may return an error: `fn(&mut self) -> Result<A, E>`. The state is
-- kept as it is when the error is met.
use stabilizer.Prelude.Results.{Result, ok, err}

abbrev pub Action : Type 0 → Type 0 → Type 0 → Type 0
Action S E A = S → S × Result E A

abbrev pub pure : {S E A : Type 0} → A → Action S E A
pure a s = (s, ok a)

abbrev pub fail : {S E A : Type 0} → E → Action S E A
fail e s = (s, err e)

abbrev pub continue : {S E A B : Type 0} → S × Result E A → (A → Action S E B) → S × Result E B
continue (s, ok a) f = f a s
continue (s, err e) f = (s, err e)

infixl 5 ◌>>=◌ ◌>>◌
abbrev pub ◌>>=◌ : {S E A B : Type 0} → Action S E A → (A → Action S E B) → Action S E B
◌>>=◌ m f s = continue (m s) f

abbrev pub ◌>>◌ : {S E A B : Type 0} → Action S E A → Action S E B → Action S E B
◌>>◌ m k s = continue (m s) (λ _. k)

abbrev pub replace_err : {S E F A : Type 0} → (E → F) → S × Result E A → S × Result F A
replace_err f (s, ok a) = (s, ok a)
replace_err f (s, err e) = (s, err (f e))

-- `.map_err(f)`.
abbrev pub map_err : {S E F A : Type 0} → (E → F) → Action S E A → Action S F A
map_err f m s = replace_err f (m s)
