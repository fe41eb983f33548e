-- ===== src/Core0/Ptp/Arms.antt =====
-- The wait for a PTP sync (src/ptp_shell.c) comes to an end.
use rp2350_zephyr_stepper.Prelude.{
  ℕ, zero, suc, ◌+◌, ◌*◌, ◌≤◌, ◌≡◌, false, Option, none, some, arith, refl, ltb, Bool-cases, inl,
  inr,
}
use rp2350_zephyr_stepper.Lan9250.World.{World, Hw, ok}
use rp2350_zephyr_stepper.Lan9250.Bus.{wait, uptime_get}
use rp2350_zephyr_stepper.Lan9250.Bus.Total.{IsKernel, IsTotal, Ends, Ends-later, Ends-and_then}
use rp2350_zephyr_stepper.Lan9250.Bus.Rules.{total_rules, read-then, write-then}
use rp2350_zephyr_stepper.Lan9250.Clock.{ptp_clock_read, ieee1588_pps_enable}
use rp2350_zephyr_stepper.Core0.Ptp.{
  Flags, Port, no_flags, confirmed, updated, query_sync, when_ready, get_iface, await_sync,
  pps_arm_when_synced,
}

-- The query of the port's state does not turn the clock back.
abbrev pub KeepsTime : {E : Type 0} → Hw E → Port E → Type 0
KeepsTime {E} hw port = (iface : ℕ) (e : E) → hw.uptime e ≤ hw.uptime (port.sync_state iface e).1

module _ {E : Type 0} (hw : Hw E) (kernel : IsKernel hw) where
  ptp_clock_read-IsTotal : IsTotal hw (ptp_clock_read hw)
  unfolding ptp_clock_read
  ptp_clock_read-IsTotal = search total_rules

  ieee1588_pps_enable-IsTotal : IsTotal hw (ieee1588_pps_enable hw)
  unfolding ieee1588_pps_enable
  ieee1588_pps_enable-IsTotal = read-then hw kernel _ _ λ led. write-then hw kernel _ _ _ (
      read-then hw kernel _ _ λ gpio. write-then hw kernel _ _ _ (
        read-then hw kernel _ _ λ config.
          write-then hw kernel _ _ _ (search (total_rules, ptp_clock_read-IsTotal) depth 12)))

  module _ (port : Port E) (keeps : KeepsTime hw port) where
    query_sync-ok :
        (iface : Option ℕ) (w : World E)
        → (f : Option Flags) × (e : E) × (query_sync hw port iface w ≡ (ok f, record w { env = e }))
          × (hw.uptime w.env ≤ hw.uptime e)
    unfolding query_sync
    query_sync-ok none w = (none, w.env, refl, omega arith)
    query_sync-ok (some iface) w =
        ((port.sync_state iface w.env).0, (port.sync_state iface w.env).1, refl, keeps iface w.env)

    await_sync-Ends :
        (fuel : ℕ) (iface : Option ℕ) (deadline : ℕ) (flags : Flags) (w : World E)
        → deadline ≤ hw.uptime w.env + 500 * fuel
        → Ends hw (hw.uptime w.env) (await_sync hw port (suc fuel) iface deadline flags w)
    unfolding await_sync uptime_get wait
    await_sync-Ends zero iface deadline flags w h =
        let late : ltb (hw.uptime w.env) deadline ≡ false = ground arith in rw late (omega arith)
    await_sync-Ends (suc fuel) iface deadline flags w h =
        elim (Bool-cases (ltb (hw.uptime w.env) deadline)) [
          | inr late ↦ rw late (omega arith)
          | inl early ↦
              let (f, e, q, t) = query_sync-ok iface w in
              let u = kernel.wait_time 500 e in
              let rest =
                await_sync-Ends fuel iface deadline (updated flags f)
                  (record w { env = hw.wait_ms 500 e }) (omega arith) in
              rw (early, q)
                (elim (Bool-cases (confirmed f)) [
                  | inl found ↦ rw found t
                  | inr again ↦ rw again (
                      Ends-later hw (hw.uptime w.env) (hw.uptime (hw.wait_ms 500 e)) _ (omega arith)
                        rest)
                ])
        ]

    -- On a kernel whose SPI calls return, whose waits last and whose clock the query of the sync
    -- state does not turn back, ptp_pps_arm_when_synced comes to an end with a result, whatever
    -- the sync state and the chip answer, within one round more than there are half seconds in
    -- max_wait_ms, rounded up.
    pub pps_arm_when_synced-IsTotal :
        (fuel max_wait_ms : ℕ)
        → max_wait_ms ≤ 500 * fuel
        → IsTotal hw (pps_arm_when_synced hw port (suc fuel) max_wait_ms)
    unfolding pps_arm_when_synced when_ready get_iface uptime_get
    pps_arm_when_synced-IsTotal fuel max_wait_ms h w =
        elim (Bool-cases (port.device_is_ready w.env)) [
          | inl ready ↦
              let iface = port.lookup_by_dev w.env in
              let armed =
                await_sync-Ends fuel iface (hw.uptime w.env + max_wait_ms) no_flags w
                  (omega arith) in
              rw ready (
                Ends-and_then hw (hw.uptime w.env)
                  (await_sync hw port (suc fuel) iface (hw.uptime w.env + max_wait_ms) no_flags w) _
                  armed (λ f. ieee1588_pps_enable-IsTotal))
          | inr absent ↦ rw absent (omega arith)
        ]
