-- ===== src/Lan9250/Locks.antt =====
-- The lock `bank_lock`, under which the registers behind the bank select are used
-- (drivers/eth_lan9250/eth_lan9250.c).
use rp2350_zephyr_stepper.Prelude.{
  ℕ, ◌+◌, ◌*◌, ◌≡◌, refl, arith, Bool, true, false, not, ◌&&◌, List, [], ◌∷◌, leb, ltb,
  if◌then◌else◌, min,
}
use rp2350_zephyr_stepper.Lan9250.World.{
  World, Hw, Io, Ret, ok, err, hang, Context, Event, spi_out, spi_in, pkt_ref, pkt_unref, pkt_stamp,
  tx_stamped, lock_bank, unlock_bank, emit, put_ctx, log, locked, unlocked,
}
use rp2350_zephyr_stepper.Lan9250.Keeps.{Keeps, keeps_rules}
use rp2350_zephyr_stepper.Lan9250.Bus.{
  spi_write_dt, spi_transceive_dt, wait, write_sys_reg, read_sys_reg,
}
use rp2350_zephyr_stepper.Lan9250.Bus.Total.{IsKernel, IsTotal, Ends}
use rp2350_zephyr_stepper.Lan9250.Bus.Succeeds.{Succeeds-IsTotal}
use rp2350_zephyr_stepper.Lan9250.Bus.Rules.{total_rules}
use rp2350_zephyr_stepper.Lan9250.Clock.{
  bank_select, timestamping_config, ieee1588_timestamping_init,
}
use rp2350_zephyr_stepper.Lan9250.Parse.{Parsed, ptp, other, out_of_bounds, parse_header}
use rp2350_zephyr_stepper.Lan9250.Timestamps.{
  correlate, correlate_parsed, check_header, rx_timestamp_check,
}
use rp2350_zephyr_stepper.Lan9250.TxTimestamps.{tx_correlate, tx_parsed, tx_timestamp_check}
use rp2350_zephyr_stepper.Lan9250.Timestamps.Correlates.{correlate-Keeps, tx_correlate-Keeps}
use rp2350_zephyr_stepper.Lan9250.Timestamps.Succeeds.{correlate-Succeeds, tx_correlate-Succeeds}

-- The register of an SPI transfer, and whether it is the bank select or behind it.
abbrev pub register : Event → ℕ
register (spi_out (i ∷ hi ∷ lo ∷ rest)) = hi * 256 + lo
register (spi_in (i ∷ hi ∷ lo ∷ rest) n) = hi * 256 + lo
register _ = 0

abbrev pub is_banked : Event → Bool
is_banked e = leb 0x154 (register e) && ltb (register e) 0x178

-- Whether the lock is held after these events, newest first.
abbrev pub is_held : List Event → Bool
is_held [] = false
is_held (lock_bank ∷ es) = true
is_held (unlock_bank ∷ es) = false
is_held (_ ∷ es) = is_held es

-- The accesses behind the bank select that were made without the lock.
abbrev pub unguarded : List Event → ℕ
unguarded [] = 0
unguarded (e ∷ es) = (if is_banked e && not (is_held es) then 1 else 0) + unguarded es

module _ {E : Type 0} (n : ℕ) where
  -- The lock is held, or free, with `n` such accesses so far.
  abbrev pub Under : World E → Type 0
  Under w = (is_held w.trace ≡ true) × (unguarded w.trace ≡ n)

  abbrev pub Free : World E → Type 0
  Free w = (is_held w.trace ≡ false) × (unguarded w.trace ≡ n)

  module _ (hw : Hw E) where
    writes-Under : (a v : ℕ) → Keeps Under (write_sys_reg hw a v)
    unfolding write_sys_reg spi_write_dt
    writes-Under a v = record { keeps = λ w b. (b.0, ground (arith, b)) }

    transceive-Under : (bytes : List ℕ) (k : ℕ) → Keeps Under (spi_transceive_dt hw bytes k)
    unfolding spi_transceive_dt
    transceive-Under bytes k = record { keeps = λ w b. (b.0, ground (arith, b)) }

    reads-Under : (a : ℕ) → Keeps Under (read_sys_reg hw a)
    unfolding read_sys_reg
    reads-Under a = search (keeps_rules, transceive-Under)

    refs-Under : (p : ℕ) → Keeps Under (emit {E = E} (pkt_ref p))
    refs-Under p = record { keeps = λ w b. (b.0, ground (arith, b)) }

    unrefs-Under : (p : ℕ) → Keeps Under (emit {E = E} (pkt_unref p))
    unrefs-Under p = record { keeps = λ w b. (b.0, ground (arith, b)) }

    stamps-Under : (p sec ns : ℕ) → Keeps Under (emit {E = E} (pkt_stamp p sec ns))
    stamps-Under p sec ns = record { keeps = λ w b. (b.0, ground (arith, b)) }

    sent-Under : (p : ℕ) → Keeps Under (emit {E = E} (tx_stamped p))
    sent-Under p = record { keeps = λ w b. (b.0, ground (arith, b)) }

    puts-Under : (c : Context) → Keeps Under (put_ctx {E = E} c)
    puts-Under c = record { keeps = λ w b. b }

    waits-Under : (ms : ℕ) → Keeps Under (wait hw ms)
    unfolding wait
    waits-Under ms = record { keeps = λ w b. b }

    correlate-Under : (pkt t s : ℕ) → Keeps Under (correlate hw pkt t s)
    correlate-Under =
        correlate-Keeps hw Under writes-Under (λ a _ _. reads-Under a) refs-Under unrefs-Under
          stamps-Under puts-Under

    tx_correlate-Under : (pkt t s : ℕ) → Keeps Under (tx_correlate hw pkt t s)
    tx_correlate-Under =
        tx_correlate-Keeps hw Under writes-Under (λ a _ _. reads-Under a) stamps-Under waits-Under
          sent-Under

    timestamping_config-Under : Keeps Under (timestamping_config hw)
    unfolding timestamping_config bank_select
    timestamping_config-Under = search (keeps_rules, writes-Under, reads-Under) depth 12

  -- The call has returned, with or without an error, and the lock is free.
  abbrev pub Released : {A : Type 0} → Ret A × World E → Type 0
  Released (ok a, w) = Free w
  Released (err e, w) = Free w
  Released (hang, w) = ⊥

  unlocked-Released :
      {A : Type 0} (hw : Hw E) (start : ℕ) (r : Ret A × World E)
      → Ends hw start r
      → Under r.1
      → Released (unlocked r)
  unlocked-Released hw start (ok a, w) e b = (refl, ground (arith, b))
  unlocked-Released hw start (err x, w) e b = (refl, ground (arith, b))
  unlocked-Released hw start (hang, w) e b = e

  locked-Released :
      {A : Type 0} (hw : Hw E) (m : Io E A) (w : World E)
      → IsTotal hw m
      → Keeps Under m
      → Free w
      → Released (locked m w)
  locked-Released hw m w t k f =
      let w1 = log lock_bank w in
      unlocked-Released hw (hw.uptime w.env) (m w1) (t w1) (k.keeps w1 (refl, ground (arith, f)))

  module _ (hw : Hw E) (kernel : IsKernel hw) where
    correlate_parsed-Released :
        (pkt : ℕ) (p : Parsed) (w : World E) → Free w → Released (correlate_parsed hw pkt p w)
    unfolding correlate_parsed
    correlate_parsed-Released pkt (ptp t s) w f =
        locked-Released hw (correlate hw pkt t s) w
          (Succeeds-IsTotal hw _ (correlate-Succeeds hw kernel pkt t s))
          (correlate-Under hw pkt t s) f
    correlate_parsed-Released pkt other w f = f
    correlate_parsed-Released pkt out_of_bounds w f = f

    check_header-Released :
        (pkt len : ℕ) (r : Ret (List ℕ)) (w : World E)
        → Free w
        → Released (check_header hw pkt len r w)
    unfolding check_header
    check_header-Released pkt len (ok header) w f =
        correlate_parsed-Released pkt (parse_header header len) w f
    check_header-Released pkt len (err e) w f = f
    check_header-Released pkt len hang w f = f

    tx_parsed-Released :
        (pkt : ℕ) (p : Parsed) (w : World E) → Free w → Released (tx_parsed hw pkt p w)
    unfolding tx_parsed
    tx_parsed-Released pkt (ptp t s) w f =
        locked-Released hw (tx_correlate hw pkt t s) w
          (Succeeds-IsTotal hw _ (tx_correlate-Succeeds hw kernel pkt t s))
          (tx_correlate-Under hw pkt t s) f
    tx_parsed-Released pkt other w f = f
    tx_parsed-Released pkt out_of_bounds w f = f

    timestamping_config-IsTotal : IsTotal hw (timestamping_config hw)
    unfolding timestamping_config bank_select
    timestamping_config-IsTotal = search total_rules depth 12

    -- On a kernel with the laws of IsKernel, lan9250_1588_rx_timestamp_check,
    -- lan9250_1588_tx_timestamp_check and lan9250_1588_timestamping_init each return from a state
    -- with bank_lock free, and on every path, errors of the chip included, they leave it free and
    -- access the bank select and the registers behind it only while they hold it.
    pub bank_lock-Released :
        (pkt len : ℕ) (frame : List ℕ) (w : World E)
        → Free w
        → Released (rx_timestamp_check hw pkt len w)
          × Released (tx_timestamp_check hw pkt frame len w)
          × Released (ieee1588_timestamping_init hw w)
    unfolding rx_timestamp_check tx_timestamp_check ieee1588_timestamping_init
    bank_lock-Released pkt len frame w f = (
      check_header-Released pkt (min len 128) _ w f,
      tx_parsed-Released pkt (parse_header frame len) w f,
      locked-Released hw (timestamping_config hw) w timestamping_config-IsTotal
          (timestamping_config-Under hw) f,
    )
