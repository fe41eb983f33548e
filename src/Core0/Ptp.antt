-- ===== src/Core0/Ptp.antt =====
-- The `ptp` shell (src/ptp_shell.c) over the functions of the LAN9250 driver: the armed 1PPS
-- output, and the reads of the clock and of the drop counter. The PTP stack's state of the port is
-- a parameter. What the commands print but do not compute is left out.
pub mod Arms
use rp2350_zephyr_stepper.Prelude.{
  ℕ, zero, suc, ◌+◌, ◌*◌, Bool, true, false, ◌||◌, Option, none, some, ltb, if◌then◌else◌, ℤ, pos,
  negsuc, ◌+ℤ◌, ◌-ℤ◌, List, [], ◌∷◌, sub_ℕ,
}
use rp2350_zephyr_stepper.Lan9250.World.{
  World, Hw, Io, Ret, ok, err, hang, pure, fail, blocked, ◌>>=◌, ◌>>◌, enodev, and_then,
}
use rp2350_zephyr_stepper.Lan9250.Bus.{wait, uptime_get}
use rp2350_zephyr_stepper.Lan9250.Clock.{Time, ptp_clock_read, ieee1588_pps_enable, rx_drop_get}

-- The flags `is_time_transmitter` and `is_synced`.
pub record Flags : Type 0 where
  pub is_time_transmitter : Bool
  pub is_synced : Bool

abbrev pub no_flags : Flags
no_flags = record { is_time_transmitter = false; is_synced = false }

-- `net_if_lookup_by_dev`, and `ptp_get_port_sync_state` with none for a result other than 0.
pub record Port (E : Type 0) : Type 0 where
  pub device_is_ready : E → Bool
  pub lookup_by_dev : E → Option ℕ
  pub sync_state : ℕ → E → Option Flags × E

abbrev pub confirmed : Option Flags → Bool
confirmed none = false
confirmed (some f) = f.is_time_transmitter || f.is_synced

abbrev pub updated : Flags → Option Flags → Flags
updated old none = old
updated old (some f) = f

-- A number of nanoseconds for each second of a difference.
abbrev pub scaled : ℤ → ℤ
scaled (pos n) = pos (n * 1_000_000_000)
scaled (negsuc n) = sub_ℕ 0 (suc n * 1_000_000_000)

-- `((int64_t)sec2 - (int64_t)sec1) * 1000000000LL + ((int64_t)ns2 - (int64_t)ns1)`
unfoldable pub delta_ns : Time → Time → ℤ
delta_ns t1 t2 = scaled (pos t2.sec -ℤ pos t1.sec) +ℤ (pos t2.ns -ℤ pos t1.ns)

module _ {E : Type 0} (hw : Hw E) (port : Port E) where
  unfoldable pub query_sync : Option ℕ → Io E (Option Flags)
  query_sync none w = (ok none, w)
  query_sync (some iface) w =
      let (f, e) = port.sync_state iface w.env in (ok f, record w { env = e })

  -- `if (!device_is_ready(lan9250_dev)) return -ENODEV;`
  unfoldable pub when_ready : {A : Type 0} → Io E A → Io E A
  when_ready m w = if port.device_is_ready w.env then m w else (err enodev, w)

  unfoldable pub get_iface : Io E (Option ℕ)
  get_iface w = (ok (port.lookup_by_dev w.env), w)

  -- `while (k_uptime_get() < deadline)`, with the flags so far.
  unfoldable pub await_sync : ℕ → Option ℕ → ℕ → Flags → Io E Flags
  unfolding query_sync
  await_sync zero iface deadline flags = blocked
  await_sync (suc fuel) iface deadline flags = do
    now ← uptime_get hw
    if ltb now deadline
        then (query_sync iface >>= λ f.
            if confirmed f
            then pure (updated flags f)
            else wait hw 500 >> await_sync fuel iface deadline (updated flags f))
        else pure flags

  unfoldable pub pps_arm_when_synced : ℕ → ℕ → Io E (Unit {0})
  unfolding await_sync when_ready get_iface
  pps_arm_when_synced fuel max_wait_ms = when_ready (do
    iface ← get_iface
    now ← uptime_get hw
    flags ← await_sync fuel iface (now + max_wait_ms) no_flags
    ieee1588_pps_enable hw)

  unfoldable pub cmd_ptp_clock : Io E ℤ
  unfolding when_ready delta_ns
  cmd_ptp_clock =
      when_ready
        (do t1 ← ptp_clock_read hw; wait hw 200; t2 ← ptp_clock_read hw; pure (delta_ns t1 t2))

  -- The query before is for what the command prints.
  unfoldable pub cmd_ptp_pps : ℕ → Io E (Unit {0})
  unfolding pps_arm_when_synced when_ready get_iface query_sync
  cmd_ptp_pps fuel =
      when_ready (do iface ← get_iface; f ← query_sync iface; pps_arm_when_synced fuel 30_000)

  unfoldable pub cmd_ptp_rxdrop : Io E ℕ
  unfolding when_ready
  cmd_ptp_rxdrop = when_ready (rx_drop_get hw)
