-- ===== src/Lan9250/Bus/Succeeds.antt =====
-- Functions of the driver that pass over every error.
use rp2350_zephyr_stepper.Prelude.{ℕ, ◌≤◌, Bool, true, false, arith, if◌then◌else◌}
use rp2350_zephyr_stepper.Lan9250.World.{
  World, Hw, Io, Ret, ok, err, hang, Event, Context, get_ctx, put_ctx, caught, pure, ◌>>=◌, ◌>>◌,
  attempt, emit, log, lock_bank, locked, unlocked,
}
use rp2350_zephyr_stepper.Lan9250.Yields.{Yields, yields}
use rp2350_zephyr_stepper.Lan9250.Yields
use rp2350_zephyr_stepper.Lan9250.Bus.{uptime_get}
use rp2350_zephyr_stepper.Lan9250.Bus.Total.{Ends, IsTotal}

-- A function that returns with success from every state, and does not turn the clock back.
abbrev pub Succeeds : {E A : Type 0} → Hw E → Io E A → Type 0
Succeeds {E} hw m = (w : World E) → Yields (λ _ w'. hw.uptime w.env ≤ hw.uptime w'.env) (m w)

module _ {E : Type 0} (hw : Hw E) where
  caught-Yields :
      {A : Type 0} (s : ℕ) (r : Ret A × World E)
      → Ends hw s r
      → Yields (λ _ w'. s ≤ hw.uptime w'.env) (caught r)
  caught-Yields s (ok a, w) e = yields e
  caught-Yields s (err x, w) e = yields e
  caught-Yields s (hang, w) e = absurd e

  pub Succeeds-IsTotal : {A : Type 0} (m : Io E A) → Succeeds hw m → IsTotal hw m
  Succeeds-IsTotal m t w = ended (t w)
    where
      ended :
          {A : Type 0} {r : Ret A × World E}
          → Yields (λ _ w'. hw.uptime w.env ≤ hw.uptime w'.env) r
          → Ends hw (hw.uptime w.env) r
      ended (yields h) = h

  pub attempt-Succeeds : {A : Type 0} (m : Io E A) → IsTotal hw m → Succeeds hw (attempt m)
  attempt-Succeeds m t w = caught-Yields (hw.uptime w.env) (m w) (t w)

  pub pure-Succeeds : {A : Type 0} (a : A) → Succeeds hw (pure a)
  pure-Succeeds a w = yields (omega arith)

  pub emit-Succeeds : (e : Event) → Succeeds hw (emit e)
  emit-Succeeds e w = yields (omega arith)

  pub get-Succeeds : Succeeds hw get_ctx
  get-Succeeds w = yields (omega arith)

  pub put-Succeeds : (c : Context) → Succeeds hw (put_ctx c)
  put-Succeeds c w = yields (omega arith)

  pub uptime-Succeeds : Succeeds hw (uptime_get hw)
  unfolding uptime_get
  uptime-Succeeds w = yields (omega arith)

  pub bind-Succeeds :
      {A B : Type 0} (m : Io E A) (k : A → Io E B)
      → Succeeds hw m
      → ((a : A) → Succeeds hw (k a))
      → Succeeds hw (m >>= k)
  bind-Succeeds m k t u w = Yields.bind (t w) λ a w1 h. Yields.mono (u a w1) λ _ w2 h2. omega arith

  pub then-Succeeds :
      {A B : Type 0} (m : Io E A) (n : Io E B)
      → Succeeds hw m
      → Succeeds hw n
      → Succeeds hw (m >> n)
  then-Succeeds m n t u = bind-Succeeds m (λ _. n) t (λ _. u)

  pub if-Succeeds :
      {A : Type 0} (b : Bool) (m n : Io E A)
      → Succeeds hw m
      → Succeeds hw n
      → Succeeds hw (if b then m else n)
  if-Succeeds true m n t u = t
  if-Succeeds false m n t u = u

  unlocked-Yields :
      {A : Type 0} (s : ℕ) (r : Ret A × World E)
      → Yields (λ _ w'. s ≤ hw.uptime w'.env) r
      → Yields (λ _ w'. s ≤ hw.uptime w'.env) (unlocked r)
  unlocked-Yields s (_, w) (yields h) = yields h

  pub locked-Succeeds : {A : Type 0} (m : Io E A) → Succeeds hw m → Succeeds hw (locked m)
  locked-Succeeds m t w =
      unlocked-Yields (hw.uptime w.env) (m (log lock_bank w)) (t (log lock_bank w))

pub ruleset success_rules = (
  attempt-Succeeds, pure-Succeeds, emit-Succeeds, bind-Succeeds, then-Succeeds, if-Succeeds,
  get-Succeeds, put-Succeeds, uptime-Succeeds, locked-Succeeds,
)
