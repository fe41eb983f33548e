-- ===== src/Lan9250/Rx/Settles.antt =====
-- What `lan9250_tx` does to the semaphore `tx_rx_sem`, on every outcome.
use rp2350_zephyr_stepper.Prelude.{
  ℕ, zero, suc, ◌-◌, ◌/◌, ◌^◌, ◌≡◌, ◌⊎◌, inl, inr, List, arith, bit_and, ◌==◌, false,
}
use rp2350_zephyr_stepper.Lan9250.World.{
  World, Hw, Io, Ret, ok, err, hang, Event, pkt_stamp, tx_stamped, emit, get_ctx, and_then, ◌>>=◌,
  ◌>>◌,
}
use rp2350_zephyr_stepper.Lan9250.Keeps.{Keeps, Keeps-bind, keeps_rules}
use rp2350_zephyr_stepper.Lan9250.Regs.{tx_fifo_inf, tx_status_fifo, tx_fifo_inf_txsused}
use rp2350_zephyr_stepper.Lan9250.Bus.{
  spi_write_dt, spi_transceive_dt, write_sys_reg, read_sys_reg, wait,
}
use rp2350_zephyr_stepper.Lan9250.Bus.Total.{
  IsKernel, IsTotal, Ends, write-Ends, read_sys_reg-IsTotal,
}
use rp2350_zephyr_stepper.Lan9250.Bus.Rules.{total_rules}
use rp2350_zephyr_stepper.Lan9250.Bus.Succeeds.{Succeeds-IsTotal}
use rp2350_zephyr_stepper.Lan9250.Parse.{Parsed, ptp, other, out_of_bounds, parse_header}
use rp2350_zephyr_stepper.Lan9250.TxTimestamps.{tx_parsed, tx_timestamp_check}
use rp2350_zephyr_stepper.Lan9250.Timestamps.Correlates.{tx_correlate-Keeps}
use rp2350_zephyr_stepper.Lan9250.Timestamps.Succeeds.{tx_timestamp_check-Succeeds}
use rp2350_zephyr_stepper.Lan9250.Rx.{
  write_buf, sem_give, sem_take, drain_status, fill_buf, tx_commands, send_frame, tx,
}

module _ {E : Type 0} (hw : Hw E) (k : ℕ) where
  -- The count of the semaphore.
  abbrev Counts : World E → Type 0
  Counts w = w.ctx.tx_rx_sem ≡ k

  write_dt-Keeps : (bytes : List ℕ) → Keeps Counts (spi_write_dt hw bytes)
  unfolding spi_write_dt
  write_dt-Keeps bytes = record { keeps = λ w b. b }

  write_sys_reg-Keeps : (a v : ℕ) → Keeps Counts (write_sys_reg hw a v)
  unfolding write_sys_reg
  write_sys_reg-Keeps a v = write_dt-Keeps _

  transceive-Keeps : (bytes : List ℕ) (n : ℕ) → Keeps Counts (spi_transceive_dt hw bytes n)
  unfolding spi_transceive_dt
  transceive-Keeps bytes n = record { keeps = λ w b. b }

  read_sys_reg-Keeps : (a : ℕ) → Keeps Counts (read_sys_reg hw a)
  unfolding read_sys_reg
  read_sys_reg-Keeps a = search (keeps_rules, transceive-Keeps)

  wait-Keeps : (ms : ℕ) → Keeps Counts (wait hw ms)
  unfolding wait
  wait-Keeps ms = record { keeps = λ w b. b }

  emit-Keeps : (e : Event) → Keeps Counts (emit e)
  emit-Keeps e = record { keeps = λ w b. b }

  tx_commands-Keeps : (len : ℕ) → Keeps Counts (tx_commands hw len)
  unfolding tx_commands
  tx_commands-Keeps len = search (keeps_rules, write_sys_reg-Keeps)

  fill_buf-Keeps : (pkt len : ℕ) → Keeps Counts (fill_buf hw pkt len)
  unfolding fill_buf
  fill_buf-Keeps pkt len = record { keeps = λ w b. ground (arith, b) }

  write_buf-Keeps : (bytes : List ℕ) → Keeps Counts (write_buf hw bytes)
  unfolding write_buf spi_write_dt
  write_buf-Keeps bytes = record { keeps = λ w b. b }

  send_frame-Keeps : (pkt len : ℕ) → Keeps Counts (send_frame hw pkt len)
  unfolding send_frame
  send_frame-Keeps pkt len = search (keeps_rules, fill_buf-Keeps, write_buf-Keeps)

  drain_status-Keeps : (n : ℕ) → Keeps Counts (drain_status hw n)
  unfolding drain_status
  drain_status-Keeps zero = search keeps_rules
  drain_status-Keeps (suc n) =
      Keeps-bind _ _ (read_sys_reg-Keeps tx_status_fifo) λ _. drain_status-Keeps n

  tx_parsed-Keeps : (pkt : ℕ) (p : Parsed) → Keeps Counts (tx_parsed hw pkt p)
  unfolding tx_parsed
  tx_parsed-Keeps pkt (ptp t s) = search (
    keeps_rules,
    emit-Keeps,
    tx_correlate-Keeps hw Counts write_sys_reg-Keeps (λ a _ _. read_sys_reg-Keeps a)
        (λ p sec ns. emit-Keeps (pkt_stamp p sec ns)) wait-Keeps (λ p. emit-Keeps (tx_stamped p)),
  )
  tx_parsed-Keeps pkt other = search keeps_rules
  tx_parsed-Keeps pkt out_of_bounds = search keeps_rules

  tx_timestamp_check-Keeps :
      (pkt : ℕ) (frame : List ℕ) (len : ℕ) → Keeps Counts (tx_timestamp_check hw pkt frame len)
  unfolding tx_timestamp_check
  tx_timestamp_check-Keeps pkt frame len = tx_parsed-Keeps pkt (parse_header frame len)

-- A success gives back what was taken, an error may keep it, and there is no other end.
abbrev pub Settled : {E : Type 0} → ℕ → Ret (Unit {0}) × World E → Type 0
Settled k (ok _, w) = w.ctx.tx_rx_sem ≡ suc k
Settled k (err e, w) = (w.ctx.tx_rx_sem ≡ suc k) ⊎ (w.ctx.tx_rx_sem ≡ k)
Settled k (hang, w) = ⊥

module _ {E : Type 0} (hw : Hw E) (kernel : IsKernel hw) where
  tx_commands-IsTotal : (len : ℕ) → IsTotal hw (tx_commands hw len)
  unfolding tx_commands
  tx_commands-IsTotal len = search total_rules

  fill_buf-IsTotal : (pkt len : ℕ) → IsTotal hw (fill_buf hw pkt len)
  unfolding fill_buf
  fill_buf-IsTotal pkt len w = ground arith

  write_buf-IsTotal : (bytes : List ℕ) → IsTotal hw (write_buf hw bytes)
  unfolding write_buf
  write_buf-IsTotal bytes w = write-Ends hw kernel _ w

  send_frame-IsTotal : (pkt len : ℕ) → IsTotal hw (send_frame hw pkt len)
  unfolding send_frame
  send_frame-IsTotal pkt len = search (total_rules, fill_buf-IsTotal, write_buf-IsTotal)

  drain_status-IsTotal : (n : ℕ) → IsTotal hw (drain_status hw n)
  unfolding drain_status
  drain_status-IsTotal zero = search total_rules
  drain_status-IsTotal (suc n) = search (total_rules, drain_status-IsTotal n)

  -- A part of the transmission between the take and the give.
  Settled-between :
      {A : Type 0} (k s : ℕ) (r : Ret A × World E) (next : A → Io E (Unit {0}))
      → r.1.ctx.tx_rx_sem ≡ k
      → Ends hw s r
      → ((a : A) (w : World E) → w.ctx.tx_rx_sem ≡ k → Settled k (next a w))
      → Settled k (and_then r next)
  Settled-between k s (ok a, w) next h e f = f a w h
  Settled-between k s (err x, w) next h e f = inr h
  Settled-between k s (hang, w) next h e f = e

  after_take :
      (pkt len status_size k : ℕ) (w : World E)
      → w.ctx.tx_rx_sem ≡ k
      → Settled k (
          (do
            tx_commands hw len
            send_frame hw pkt len
            drain_status hw status_size
            c ← get_ctx
            tx_timestamp_check hw pkt c.buf len
            sem_give hw)
            w)
  unfolding sem_give
  after_take pkt len status_size k w h =
      Settled-between k _ (tx_commands hw len w) _ ((tx_commands-Keeps hw k len).keeps w h)
        (tx_commands-IsTotal len w)
        λ _ w1 h1.
          Settled-between k _ (send_frame hw pkt len w1) _
            ((send_frame-Keeps hw k pkt len).keeps w1 h1) (send_frame-IsTotal pkt len w1)
            λ _ w2 h2.
              Settled-between k _ (drain_status hw status_size w2) _
                ((drain_status-Keeps hw k status_size).keeps w2 h2)
                (drain_status-IsTotal status_size w2)
                λ _ w3 h3.
                  Settled-between k _ (tx_timestamp_check hw pkt w3.ctx.buf len w3) _
                    ((tx_timestamp_check-Keeps hw k pkt w3.ctx.buf len).keeps w3 h3)
                    (Succeeds-IsTotal hw _
                      (tx_timestamp_check-Succeeds hw kernel pkt w3.ctx.buf len) w3)
                    λ _ w4 h4. omega (arith, h4)

  with_semaphore :
      (pkt len k : ℕ) (r : Ret ℕ × World E) (s : ℕ)
      → r.1.ctx.tx_rx_sem ≡ suc k
      → Ends hw s r
      → Settled k (
          and_then r λ regval. sem_take hw >> (do
            tx_commands hw len
            send_frame hw pkt len
            drain_status hw (bit_and regval tx_fifo_inf_txsused / 2 ^ 16)
            c ← get_ctx
            tx_timestamp_check hw pkt c.buf len
            sem_give hw))
  unfolding sem_take
  with_semaphore pkt len k (ok regval, w) s h e =
      let free : (w.ctx.tx_rx_sem == 0) ≡ false = ground (arith, h) in
      let w1 : World E = record w { ctx = record w.ctx { tx_rx_sem = w.ctx.tx_rx_sem - 1 } } in
      rw free (after_take pkt len _ k w1 (omega (arith, h)))
  with_semaphore pkt len k (err x, w) s h e = inl h
  with_semaphore pkt len k (hang, w) s h e = e

  -- On a kernel whose SPI calls return and whose waits last, a transmission that finds the
  -- semaphore at k + 1 comes to an end, whatever the chip answers; after a success the semaphore
  -- is at k + 1 again, and after an error it is at k + 1 or at k.
  pub tx-Settled : (pkt k : ℕ) (w : World E) → w.ctx.tx_rx_sem ≡ suc k → Settled k (tx hw pkt w)
  unfolding tx
  tx-Settled pkt k w h =
      with_semaphore pkt (hw.pkt_len pkt w.env) k (read_sys_reg hw tx_fifo_inf w) (hw.uptime w.env)
        ((read_sys_reg-Keeps hw (suc k) tx_fifo_inf).keeps w h)
        (read_sys_reg-IsTotal hw kernel tx_fifo_inf w)
