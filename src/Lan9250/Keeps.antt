-- ===== src/Lan9250/Keeps.antt =====
-- Invariants of the driver's functions, one rule for each way to put a function together.
use rp2350_zephyr_stepper.Prelude.{ℕ, Bool, true, false, if◌then◌else◌}
use rp2350_zephyr_stepper.Lan9250.World.{
  World, Hw, Io, Ret, ok, err, hang, and_then, caught, pure, fail, get_ctx, attempt, emit, log,
  lock_bank, unlock_bank, locked, unlocked, ◌>>=◌, ◌>>◌,
}
use rp2350_zephyr_stepper.Lan9250.Bus.{uptime_get}

-- Whatever it returns, `m` keeps `I`.
pub record Keeps {E A : Type 0} (I : World E → Type 0) (m : Io E A) : Type 0 where
  pub keeps : (w : World E) → I w → I (m w).1

caught-keeps : {E A : Type 0} (I : World E → Type 0) (r : Ret A × World E) → I r.1 → I (caught r).1
caught-keeps I (ok a, w) b = b
caught-keeps I (err e, w) b = b
caught-keeps I (hang, w) b = b

module _ {E : Type 0} {I : World E → Type 0} where
  pub Keeps-pure : {A : Type 0} (a : A) → Keeps I (pure a)
  Keeps-pure a = record { keeps = λ w b. b }

  pub Keeps-fail : {A : Type 0} (e : ℕ) → Keeps {A = A} I (fail e)
  Keeps-fail e = record { keeps = λ w b. b }

  pub Keeps-get : Keeps I get_ctx
  Keeps-get = record { keeps = λ w b. b }

  pub Keeps-uptime : (hw : Hw E) → Keeps I (uptime_get hw)
  unfolding uptime_get
  Keeps-uptime hw = record { keeps = λ w b. b }

  pub Keeps-attempt : {A : Type 0} (m : Io E A) → Keeps I m → Keeps I (attempt m)
  Keeps-attempt m h = record { keeps = λ w b. caught-keeps I (m w) (h.keeps w b) }

  pub Keeps-if :
      {A : Type 0} (b : Bool) (m n : Io E A) → Keeps I m → Keeps I n → Keeps I (if b then m else n)
  Keeps-if true m n h k = h
  Keeps-if false m n h k = k

  pub and_then-keeps :
      {A B : Type 0} (r : Ret A × World E) (k : A → Io E B)
      → I r.1
      → ((a : A) → Keeps I (k a))
      → I (and_then r k).1
  and_then-keeps (ok a, w) k b f = (f a).keeps w b
  and_then-keeps (err e, w) k b f = b
  and_then-keeps (hang, w) k b f = b

  pub Keeps-bind :
      {A B : Type 0} (m : Io E A) (k : A → Io E B)
      → Keeps I m
      → ((a : A) → Keeps I (k a))
      → Keeps I (m >>= k)
  Keeps-bind m k h f = record { keeps = λ w b. and_then-keeps (m w) k (h.keeps w b) f }

  pub Keeps-then :
      {A B : Type 0} (m : Io E A) (n : Io E B) → Keeps I m → Keeps I n → Keeps I (m >> n)
  Keeps-then m n h k = Keeps-bind m (λ _. n) h (λ _. k)

  unlocked-keeps :
      {A : Type 0} (r : Ret A × World E)
      → Keeps {E = E} I (emit unlock_bank)
      → I r.1
      → I (unlocked r).1
  unlocked-keeps (ok a, w) u b = u.keeps w b
  unlocked-keeps (err e, w) u b = u.keeps w b
  unlocked-keeps (hang, w) u b = b

  pub Keeps-locked :
      {A : Type 0} (m : Io E A)
      → Keeps {E = E} I (emit lock_bank)
      → Keeps {E = E} I (emit unlock_bank)
      → Keeps I m
      → Keeps I (locked m)
  Keeps-locked m l u h = record {
    keeps = λ w b. unlocked-keeps (m (log lock_bank w)) u (h.keeps _ (l.keeps w b));
  }

pub ruleset keeps_rules = (
  Keeps-pure, Keeps-fail, Keeps-get, Keeps-uptime, Keeps-attempt, Keeps-if, Keeps-bind, Keeps-then,
  Keeps-locked,
)
