-- ===== src/Result/Laws.antt =====
-- What a chain of steps that may throw says of its first step.
use database_hw.Prelude.{◌≡◌, refl, arith}
use database_hw.Result.{Result, ok, throw, undefined, ◌>>=◌}

-- The first step of a chain that returns has returned.
pub bind_ok :
    {A B : Type 0} (r : Result A) (f : A → Result B) (b : B)
    → r >>= f ≡ ok b
    → (a : A) × (r ≡ ok a) × (f a ≡ ok b)
bind_ok (ok a) f b run = (a, refl, run)
bind_ok (throw e) f b run = absurd (ground (arith, run))
bind_ok undefined f b run = absurd (ground (arith, run))
