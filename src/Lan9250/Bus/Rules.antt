-- ===== src/Lan9250/Bus/Rules.antt =====
-- Rules for `search`: how a function of the driver that is put together from others comes to an
-- end.
use rp2350_zephyr_stepper.Prelude.{ℕ, Bool, true, false, arith, if◌then◌else◌}
use rp2350_zephyr_stepper.Lan9250.World.{
  Hw, Io, Context, Event, ◌>>=◌, ◌>>◌, emit, put_ctx, get_ctx,
}
use rp2350_zephyr_stepper.Lan9250.Bus.{uptime_get, wait, read_sys_reg, write_sys_reg}
use rp2350_zephyr_stepper.Lan9250.Bus.Total.{
  IsKernel, IsTotal, IsTotal-bind, IsTotal-then, IsTotal-attempt, IsTotal-pure, IsTotal-fail,
  IsTotal-locked, read_sys_reg-IsTotal, write_sys_reg-IsTotal, read_mac_reg-IsTotal,
  write_mac_reg-IsTotal, read_phy_reg-IsTotal, write_phy_reg-IsTotal,
}

module _ {E : Type 0} (hw : Hw E) where
  pub IsTotal-if :
      {A : Type 0} (b : Bool) (m n : Io E A)
      → IsTotal hw m
      → IsTotal hw n
      → IsTotal hw (if b then m else n)
  IsTotal-if true m n t u = t
  IsTotal-if false m n t u = u

  pub IsTotal-emit : (e : Event) → IsTotal hw (emit e)
  IsTotal-emit e w = omega arith

  pub IsTotal-put : (c : Context) → IsTotal hw (put_ctx c)
  IsTotal-put c w = omega arith

  pub IsTotal-get : IsTotal hw get_ctx
  IsTotal-get w = omega arith

  pub IsTotal-uptime : IsTotal hw (uptime_get hw)
  unfolding uptime_get
  IsTotal-uptime w = omega arith

  pub IsTotal-wait : IsKernel hw → (ms : ℕ) → IsTotal hw (wait hw ms)
  unfolding wait
  IsTotal-wait kernel ms w = omega (arith, kernel.wait_time ms w.env)

-- A register access and what comes after it, for a chain that is long for `search`.
module _ {E : Type 0} (hw : Hw E) (kernel : IsKernel hw) where
  pub read-then :
      {A : Type 0} (a : ℕ) (k : ℕ → Io E A)
      → ((v : ℕ) → IsTotal hw (k v))
      → IsTotal hw (read_sys_reg hw a >>= k)
  read-then a k t = IsTotal-bind hw _ k (read_sys_reg-IsTotal hw kernel a) t

  pub write-then :
      {A : Type 0} (a v : ℕ) (n : Io E A) → IsTotal hw n → IsTotal hw (write_sys_reg hw a v >> n)
  write-then a v n t = IsTotal-then hw _ n (write_sys_reg-IsTotal hw kernel a v) t

pub ruleset total_rules = (
  IsTotal-bind, IsTotal-then, IsTotal-attempt, IsTotal-pure, IsTotal-fail, IsTotal-if,
  IsTotal-locked, IsTotal-emit, IsTotal-put, IsTotal-get, IsTotal-uptime, IsTotal-wait,
  read_sys_reg-IsTotal, write_sys_reg-IsTotal, read_mac_reg-IsTotal, write_mac_reg-IsTotal,
  read_phy_reg-IsTotal, write_phy_reg-IsTotal,
)
