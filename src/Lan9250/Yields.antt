-- ===== src/Lan9250/Yields.antt =====
-- Total correctness of a run of the driver: it returns 0, and the postcondition holds.
use rp2350_zephyr_stepper.Lan9250.World.{World, Io, Ret, ok, and_then}

pub data Yields {E A : Type 0} (P : A → World E → Type 0) : Ret A × World E → Type 0 where
  yields : {a : A} {w : World E} → P a w → Yields P (ok a, w)

module _ {E A : Type 0} {P : A → World E → Type 0} where
  pub bind :
      {B : Type 0} {Q : B → World E → Type 0} {r : Ret A × World E} {k : A → Io E B}
      → Yields P r
      → ((a : A) (w : World E) → P a w → Yields Q (k a w))
      → Yields Q (and_then r k)
  bind (yields p) next = next _ _ p

  pub mono :
      {Q : A → World E → Type 0} {r : Ret A × World E}
      → Yields P r
      → ((a : A) (w : World E) → P a w → Q a w)
      → Yields Q r
  mono (yields p) weaken = yields (weaken _ _ p)
