-- ===== src/Lan9250/Bus/Total.antt =====
-- The register accesses come to an end: their polling loops are bounded by the clock.
use rp2350_zephyr_stepper.Prelude.{
  ℕ, zero, suc, ◌+◌, ◌%◌, ◌^◌, ◌<◌, ◌≤◌, ◌≢◌, Bool, true, false, Option, List, arith, leb,
  if◌then◌else◌, Bool-cases, inl, inr,
}
use rp2350_zephyr_stepper.Lan9250.World.{
  World, Hw, Io, Ret, ok, err, hang, pure, fail, and_then, ◌>>=◌, ◌>>◌, attempt, caught, eio, log,
  lock_bank, locked, unlocked,
}
use rp2350_zephyr_stepper.Lan9250.Regs.{
  mac_csr_cmd, mac_csr_data, mac_csr_cmd_busy, mac_timeout, phy_timeout, hmac_mii_acc,
  hmac_mii_data, hmac_mii_acc_miibzy,
}
use rp2350_zephyr_stepper.Lan9250.Bus.{
  get_le32, spi_write_dt, spi_transceive_dt, wait, uptime_get, write_sys_reg, read_sys_reg, matches,
  poll, wait_ready, read_mac_reg, write_mac_reg, wait_mac_ready, read_phy_reg, write_phy_reg,
}

-- The kernel's promises: an SPI call returns, no call turns the clock back, and a wait lasts as
-- long as it says.
pub record IsKernel {E : Type 0} (hw : Hw E) : Type 0 where
  pub write_returns : (bytes : List ℕ) (e : E) → (hw.spi_write bytes e).0 ≢ hang
  pub read_returns : (bytes : List ℕ) (n : ℕ) (e : E) → (hw.spi_read bytes n e).0 ≢ hang
  pub write_time : (bytes : List ℕ) (e : E) → hw.uptime e ≤ hw.uptime (hw.spi_write bytes e).1
  pub read_time :
      (bytes : List ℕ) (n : ℕ) (e : E) → hw.uptime e ≤ hw.uptime (hw.spi_read bytes n e).1
  pub wait_time : (ms : ℕ) (e : E) → hw.uptime e + ms ≤ hw.uptime (hw.wait_ms ms e)

-- A run has come to an end, not before `start`.
abbrev pub Ends : {E A : Type 0} → Hw E → ℕ → Ret A × World E → Type 0
Ends hw start (ok a, w) = start ≤ hw.uptime w.env
Ends hw start (err e, w) = start ≤ hw.uptime w.env
Ends hw start (hang, w) = ⊥

-- A function that comes to an end from every state.
abbrev pub IsTotal : {E A : Type 0} → Hw E → Io E A → Type 0
IsTotal {E} hw m = (w : World E) → Ends hw (hw.uptime w.env) (m w)

module _ {E : Type 0} (hw : Hw E) where
  pub Ends-later : {A : Type 0} (s t : ℕ) (r : Ret A × World E) → s ≤ t → Ends hw t r → Ends hw s r
  Ends-later s t (ok a, w) h e = omega arith
  Ends-later s t (err x, w) h e = omega arith
  Ends-later s t (hang, w) h e = e

  pub Ends-and_then :
      {A B : Type 0} (s : ℕ) (r : Ret A × World E) (k : A → Io E B)
      → Ends hw s r
      → ((a : A) → IsTotal hw (k a))
      → Ends hw s (and_then r k)
  Ends-and_then s (ok a, w) k e t = Ends-later s (hw.uptime w.env) (k a w) e (t a w)
  Ends-and_then s (err x, w) k e t = e
  Ends-and_then s (hang, w) k e t = e

  pub IsTotal-bind :
      {A B : Type 0} (m : Io E A) (k : A → Io E B)
      → IsTotal hw m
      → ((a : A) → IsTotal hw (k a))
      → IsTotal hw (m >>= k)
  IsTotal-bind m k t u w = Ends-and_then (hw.uptime w.env) (m w) k (t w) u

  pub IsTotal-then :
      {A B : Type 0} (m : Io E A) (n : Io E B) → IsTotal hw m → IsTotal hw n → IsTotal hw (m >> n)
  IsTotal-then m n t u = IsTotal-bind m (λ _. n) t (λ _. u)

  Ends-caught : {A : Type 0} (s : ℕ) (r : Ret A × World E) → Ends hw s r → Ends hw s (caught r)
  Ends-caught s (ok a, w) e = e
  Ends-caught s (err x, w) e = e
  Ends-caught s (hang, w) e = e

  pub IsTotal-attempt : {A : Type 0} (m : Io E A) → IsTotal hw m → IsTotal hw (attempt m)
  IsTotal-attempt m t w = Ends-caught (hw.uptime w.env) (m w) (t w)

  Ends-unlocked : {A : Type 0} (s : ℕ) (r : Ret A × World E) → Ends hw s r → Ends hw s (unlocked r)
  Ends-unlocked s (ok a, w) e = e
  Ends-unlocked s (err x, w) e = e
  Ends-unlocked s (hang, w) e = e

  pub IsTotal-locked : {A : Type 0} (m : Io E A) → IsTotal hw m → IsTotal hw (locked m)
  IsTotal-locked m t w = Ends-unlocked (hw.uptime w.env) (m (log lock_bank w)) (t (log lock_bank w))

  pub IsTotal-pure : {A : Type 0} (a : A) → IsTotal hw (pure a)
  IsTotal-pure a w = omega arith

  pub IsTotal-fail : (A : Type 0) (e : ℕ) → IsTotal hw (fail {A = A} e)
  IsTotal-fail A e w = omega arith

module _ {E : Type 0} (hw : Hw E) (kernel : IsKernel hw) where
  pub write-Ends :
      (bytes : List ℕ) (w : World E) → Ends hw (hw.uptime w.env) (spi_write_dt hw bytes w)
  unfolding spi_write_dt
  write-Ends bytes w =
      ground (arith, kernel.write_returns bytes w.env, kernel.write_time bytes w.env)

  pub transceive-IsTotal : (bytes : List ℕ) (n : ℕ) → IsTotal hw (spi_transceive_dt hw bytes n)
  unfolding spi_transceive_dt
  transceive-IsTotal bytes n w =
      ground (arith, kernel.read_returns bytes n w.env, kernel.read_time bytes n w.env)

  pub write_sys_reg-IsTotal : (address value : ℕ) → IsTotal hw (write_sys_reg hw address value)
  unfolding write_sys_reg
  write_sys_reg-IsTotal address value w = write-Ends _ w

  pub read_sys_reg-IsTotal : (address : ℕ) → IsTotal hw (read_sys_reg hw address)
  unfolding read_sys_reg
  read_sys_reg-IsTotal address =
      IsTotal-bind hw _ _ (transceive-IsTotal _ 4) (λ bytes. IsTotal-pure hw (get_le32 bytes))

  poll-decide :
      (fuel : ℕ) (read : Io E ℕ) (mask expected end s : ℕ) (w : World E) (hit : Bool)
      → s ≤ hw.uptime w.env
      → end < s + suc fuel
      → ((w' : World E)
          → 0 < fuel
          → end < hw.uptime w'.env + fuel
          → Ends hw (hw.uptime w'.env) (poll hw fuel read mask expected end w'))
      → Ends hw s (
          (if hit
              then pure tt
              else if leb end (hw.uptime w.env)
              then fail eio
              else wait hw 1 >> poll hw fuel read mask expected end)
            w)
  unfolding wait
  poll-decide fuel read mask expected end s w true h k more = h
  poll-decide fuel read mask expected end s w false h k more =
      elim (Bool-cases (leb end (hw.uptime w.env))) [
        | inl late ↦ rw late h
        | inr early ↦
            let w' : World E = record w { env = hw.wait_ms 1 w.env } in
            let t = kernel.wait_time 1 w.env in
            rw early (
              Ends-later hw s (hw.uptime w'.env) (poll hw fuel read mask expected end w')
                (omega arith) (more w' (ground arith) (ground arith)))
      ]

  poll-Ends :
      (fuel : ℕ) (read : Io E ℕ) (mask expected end : ℕ) (w : World E)
      → IsTotal hw read
      → 0 < fuel
      → end < hw.uptime w.env + fuel
      → Ends hw (hw.uptime w.env) (poll hw fuel read mask expected end w)
  unfolding poll uptime_get
  poll-Ends zero read mask expected end w t p h = absurd (omega arith)
  poll-Ends (suc fuel) read mask expected end w t p h =
      after (attempt read w) (IsTotal-attempt hw read t w)
        (λ w' q h'. poll-Ends fuel read mask expected end w' t q h')
    where
      after :
          (r : Ret (Option ℕ) × World E)
          → Ends hw (hw.uptime w.env) r
          → ((w' : World E)
              → 0 < fuel
              → end < hw.uptime w'.env + fuel
              → Ends hw (hw.uptime w'.env) (poll hw fuel read mask expected end w'))
          → Ends hw (hw.uptime w.env) (
              and_then r (λ tmp. uptime_get hw >>= λ now.
              if matches hw mask expected tmp
              then pure tt
              else if leb end now
              then fail eio
              else wait hw 1 >> poll hw fuel read mask expected end))
      after (ok o, w1) e more =
          poll-decide fuel read mask expected end (hw.uptime w.env) w1 (matches hw mask expected o)
            e h more
      after (err x, w1) e more = e
      after (hang, w1) e more = e

  -- The fuel that the timeouts ask for.
  module _ (fuel : ℕ) (enough : 5000 < fuel) where
    -- On a kernel whose SPI calls return and whose waits last, lan9250_wait_ready comes to an end
    -- with a result, whatever the chip answers, for any fuel above 5000 and above the time-out in
    -- milliseconds.
    pub wait_ready-IsTotal :
        (address mask expected m_second : ℕ)
        → m_second < fuel
        → IsTotal hw (wait_ready hw fuel address mask expected m_second)
    unfolding wait_ready uptime_get
    wait_ready-IsTotal address mask expected m_second h w =
        poll-Ends fuel (read_sys_reg hw address) mask expected _ w (read_sys_reg-IsTotal address)
          (omega arith) (omega arith)

    mac_idle : IsTotal hw (wait_ready hw fuel mac_csr_cmd mac_csr_cmd_busy 0 mac_timeout)
    mac_idle = wait_ready-IsTotal mac_csr_cmd mac_csr_cmd_busy 0 mac_timeout (omega arith)

    pub read_mac_reg-IsTotal : (address : ℕ) → IsTotal hw (read_mac_reg hw fuel address)
    unfolding read_mac_reg
    read_mac_reg-IsTotal address = IsTotal-then hw _ _ mac_idle (
        IsTotal-then hw _ _ (write_sys_reg-IsTotal _ _)
          (IsTotal-then hw _ _ mac_idle (read_sys_reg-IsTotal mac_csr_data)))

    -- On a kernel whose SPI calls return and whose waits last, lan9250_write_mac_reg comes to an
    -- end with a result, whatever the chip answers, for any fuel above 5000.
    pub write_mac_reg-IsTotal :
        (address value : ℕ) → IsTotal hw (write_mac_reg hw fuel address value)
    unfolding write_mac_reg
    write_mac_reg-IsTotal address value = IsTotal-then hw _ _ mac_idle (
        IsTotal-then hw _ _ (write_sys_reg-IsTotal _ _)
          (IsTotal-then hw _ _ (write_sys_reg-IsTotal _ _) mac_idle))

    phy_idle : IsTotal hw (wait_mac_ready hw fuel hmac_mii_acc hmac_mii_acc_miibzy 0 phy_timeout)
    unfolding wait_mac_ready uptime_get
    phy_idle w =
        poll-Ends fuel (read_mac_reg hw fuel hmac_mii_acc) hmac_mii_acc_miibzy 0 _ w
          (read_mac_reg-IsTotal hmac_mii_acc) (omega arith) (omega arith)

    -- On a kernel whose SPI calls return and whose waits last, lan9250_read_phy_reg comes to an
    -- end with a result, whatever the chip answers, for any fuel above 5000.
    pub read_phy_reg-IsTotal : (address : ℕ) → IsTotal hw (read_phy_reg hw fuel address)
    unfolding read_phy_reg
    read_phy_reg-IsTotal address = IsTotal-then hw _ _ phy_idle (
        IsTotal-then hw _ _ (write_mac_reg-IsTotal _ _) (
          IsTotal-then hw _ _ phy_idle (
            IsTotal-bind hw _ _ (read_mac_reg-IsTotal hmac_mii_data)
              (λ tmp. IsTotal-pure hw (tmp % 2 ^ 16)))))

    -- On a kernel whose SPI calls return and whose waits last, lan9250_write_phy_reg comes to an
    -- end with a result, whatever the chip answers, for any fuel above 5000.
    pub write_phy_reg-IsTotal :
        (address value : ℕ) → IsTotal hw (write_phy_reg hw fuel address value)
    unfolding write_phy_reg
    write_phy_reg-IsTotal address value = IsTotal-then hw _ _ phy_idle (
        IsTotal-then hw _ _ (write_mac_reg-IsTotal _ _)
          (IsTotal-then hw _ _ (write_mac_reg-IsTotal _ _) phy_idle))
