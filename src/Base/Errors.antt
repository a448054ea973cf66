-- ===== src/Base/Errors.antt =====
-- Outcomes whose value can be an error, and where the error comes from.
use mathlib.Core.Path.{◌≡◌, refl}
use mathlib.Core.Logic.{◌⊎◌, inl, inr}
use mathlib.Core.Bool.{Bool, true, false}
use play_evmone.Base.Outcome.{Outcome, Result, returns, panic, out_of_fuel, ok, err, ◌>>=◌, ◌>>=?◌}
use play_evmone.Base.Tests.{if◌then◌else◌}

-- An outcome that is no error.
abbrev pub NoErr : {E A : Type 0} → Outcome (Result E A) → Type 0
NoErr (returns (err e)) = ⊥
NoErr _ = Unit

pub NoErr-bind :
    {A E B : Type 0} (m : Outcome A) (f : A → Outcome (Result E B))
    → ((a : A) → NoErr (f a))
    → NoErr (m >>= f)
NoErr-bind (returns a) f k = k a
NoErr-bind (panic p) f k = tt
NoErr-bind out_of_fuel f k = tt

pub NoErr-ne : {E A : Type 0} (m : Outcome (Result E A)) {e : E} → NoErr m → m ≡ returns (err e) → ⊥
NoErr-ne m h e = rw e at h

pub if-err :
    {E A : Type 0} (b : Bool) (m : Outcome (Result E A)) {x e : E}
    → NoErr m
    → (if b then returns (err x) else m) ≡ returns (err e)
    → (e ≡ x) × (b ≡ true)
if-err true m n h = (cc, refl)
if-err false m n h = elim (NoErr-ne m n h) [ ]

-- An error of two parts is an error of the one or the other.
pub >>=?-err :
    {E A B : Type 0} (m : Outcome (Result E A)) (f : A → Outcome (Result E B)) {e : E}
    → (m >>=? f) ≡ returns (err e)
    → (m ≡ returns (err e)) ⊎ ((a : A) × (m ≡ returns (ok a)) × (f a ≡ returns (err e)))
>>=?-err (returns (ok a)) f h = inr (a, refl, h)
>>=?-err (returns (err e)) f h = inl cc
>>=?-err (panic p) f h = cc
>>=?-err out_of_fuel f h = cc
