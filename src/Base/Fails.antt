-- ===== src/Base/Fails.antt =====
-- How code can fail: by a panic of a given kind, or out of fuel where that is allowed.
use mathlib.Core.Path.{◌≡◌, refl}
use mathlib.Core.Bool.{Bool, true, false}
use play_evmone.Base.Outcome.{
  Panic, Outcome, returns, panic, out_of_fuel, Result, ok, err, ◌>>=◌, ◌>>=?◌,
}
use play_evmone.Base.Tests.{if◌then◌else◌}

-- Fails Q F m: a panic of `m` is one of `Q`, and `m` runs out of fuel only if `F` holds.
abbrev pub Fails {ℓ} : (Panic → Type 0) → Type 0 → {A : Type ℓ} → Outcome A → Type 0
Fails Q F (returns a) = Unit
Fails Q F (panic p) = Q p
Fails Q F out_of_fuel = F

module _ (Q : Panic → Type 0) (F : Type 0) where
  pub Fails-bind :
      {A B : Type 0} (m : Outcome A) (f : A → Outcome B)
      → Fails Q F m
      → ((a : A) → m ≡ returns a → Fails Q F (f a))
      → Fails Q F (m >>= f)
  Fails-bind (returns a) f h k = k a refl
  Fails-bind (panic p) f h k = h
  Fails-bind out_of_fuel f h k = h

  pub Fails-try :
      {E A B : Type 0} (m : Outcome (Result E A)) (f : A → Outcome (Result E B))
      → Fails Q F m
      → ((a : A) → m ≡ returns (ok a) → Fails Q F (f a))
      → Fails Q F (m >>=? f)
  Fails-try (returns (ok a)) f h k = k a refl
  Fails-try (returns (err e)) f h k = tt
  Fails-try (panic p) f h k = h
  Fails-try out_of_fuel f h k = h

  pub Fails-if :
      {A : Type 0} (b : Bool) (m m' : Outcome A)
      → Fails Q F m
      → Fails Q F m'
      → Fails Q F (if b then m else m')
  Fails-if true m m' h h' = h
  Fails-if false m m' h h' = h'
