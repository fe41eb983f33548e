-- ===== src/Lan9250/Rx/Total.antt =====
-- `lan9250_rx` comes to an end.
use rp2350_zephyr_stepper.Prelude.{
  ℕ, zero, suc, ◌+◌, ◌-◌, ◌≤◌, ◌<◌, Option, none, some, List, arith, ◌==◌, min, Bool-cases, inl,
  inr,
}
use rp2350_zephyr_stepper.Lan9250.World.{Hw, Io}
use rp2350_zephyr_stepper.Lan9250.Bus.Total.{
  IsKernel, IsTotal, IsTotal-bind, IsTotal-attempt, transceive-IsTotal,
}
use rp2350_zephyr_stepper.Lan9250.Bus.Rules.{total_rules}
use rp2350_zephyr_stepper.Lan9250.Bus.Succeeds.{Succeeds-IsTotal}
use rp2350_zephyr_stepper.Lan9250.Timestamps.{rx_pending_expire}
use rp2350_zephyr_stepper.Lan9250.Timestamps.Succeeds.{
  rx_pending_expire-Succeeds, rx_timestamp_check-Succeeds,
}
use rp2350_zephyr_stepper.Lan9250.Rx.{
  read_buf, unless_failed, discard, pkt_append, receive, read_pad, rx_alloc, recv_data, sem_give,
  drop_frame, deliver, allocated, rx,
}

-- No call of the packet pool or of the network stack turns the clock back.
pub record IsStack {E : Type 0} (hw : Hw E) : Type 0 where
  pub alloc_time : (n : ℕ) (e : E) → hw.uptime e ≤ hw.uptime (hw.rx_alloc n e).1
  pub append_time :
      (pkt : ℕ) (bytes : List ℕ) (e : E) → hw.uptime e ≤ hw.uptime (hw.pkt_append pkt bytes e)
  pub recv_time : (pkt : ℕ) (e : E) → hw.uptime e ≤ hw.uptime (hw.recv_data pkt e).1

module _ {E : Type 0} (hw : Hw E) (kernel : IsKernel hw) where
  read_buf-IsTotal : (n : ℕ) → IsTotal hw (read_buf hw n)
  unfolding read_buf
  read_buf-IsTotal n = transceive-IsTotal hw kernel _ n

  read_pad-IsTotal : (n : ℕ) → IsTotal hw (read_pad hw n)
  unfolding read_pad
  read_pad-IsTotal n = search (total_rules, read_buf-IsTotal)

  unless_failed-IsTotal :
      (r : Option (List ℕ)) (m : Io E (Unit {0})) → IsTotal hw m → IsTotal hw (unless_failed hw r m)
  unless_failed-IsTotal none m t = search total_rules
  unless_failed-IsTotal (some _) m t = t

  rx_pending_expire-IsTotal : (now : ℕ) → IsTotal hw (rx_pending_expire now)
  rx_pending_expire-IsTotal now = Succeeds-IsTotal hw _ (rx_pending_expire-Succeeds hw now)

  sem_give-IsTotal : IsTotal hw (sem_give hw)
  unfolding sem_give
  sem_give-IsTotal = search total_rules

  module _ (size : ℕ) (room : 0 < size) where
    -- The rounds left are enough, or none is needed.
    discard-IsTotal : (fuel n : ℕ) → n < fuel → IsTotal hw (discard hw fuel size n)
    unfolding discard
    discard-IsTotal zero n h = absurd (omega arith)
    discard-IsTotal (suc fuel) n h = elim (Bool-cases (n == 0)) [
      | inl nil ↦ rw nil (search total_rules)
      | inr more ↦
          let rest = discard-IsTotal fuel (n - min n size) (ground arith) in
          rw more (
            IsTotal-bind hw _ _ (IsTotal-attempt hw _ (read_buf-IsTotal _))
              λ r. unless_failed-IsTotal r _ rest)
    ]

  module _ (stack : IsStack hw) where
    pkt_append-IsTotal : (pkt : ℕ) (bytes : List ℕ) → IsTotal hw (pkt_append hw pkt bytes)
    unfolding pkt_append
    pkt_append-IsTotal pkt bytes w = stack.append_time pkt bytes w.env

    rx_alloc-IsTotal : (n : ℕ) → IsTotal hw (rx_alloc hw n)
    unfolding rx_alloc
    rx_alloc-IsTotal n w = stack.alloc_time n w.env

    recv_data-IsTotal : (pkt : ℕ) → IsTotal hw (recv_data hw pkt)
    unfolding recv_data
    recv_data-IsTotal pkt w = stack.recv_time pkt w.env

    receive-IsTotal :
        (size : ℕ)
        → 0 < size
        → (fuel pkt n : ℕ) → n < fuel
        → IsTotal hw (receive hw fuel size pkt n)
    unfolding receive
    receive-IsTotal size room zero pkt n h = absurd (omega arith)
    receive-IsTotal size room (suc fuel) pkt n h = elim (Bool-cases (n - min n size == 0)) [
      | inl nil ↦ rw nil (search (total_rules, read_buf-IsTotal, pkt_append-IsTotal))
      | inr more ↦
          let rest = receive-IsTotal size room fuel pkt (n - min n size) (ground arith) in
          rw more (search (total_rules, read_buf-IsTotal, pkt_append-IsTotal, rest))
    ]

    module _ (room : 0 < hw.buf_data_size) where
      drop_frame-IsTotal : (n : ℕ) → IsTotal hw (drop_frame hw n)
      unfolding drop_frame
      drop_frame-IsTotal n =
          let dropped = discard-IsTotal hw.buf_data_size room (n + 1) n (omega arith) in
          search (total_rules, rx_pending_expire-IsTotal, read_pad-IsTotal, dropped) depth 12

      deliver-IsTotal : (pkt n : ℕ) → IsTotal hw (deliver hw pkt n)
      unfolding deliver
      deliver-IsTotal pkt n =
          let received = receive-IsTotal hw.buf_data_size room (n + 1) pkt n (omega arith) in
          let checked = Succeeds-IsTotal hw _ (rx_timestamp_check-Succeeds hw kernel pkt n) in
          search
            (total_rules, received, read_pad-IsTotal, checked, recv_data-IsTotal, sem_give-IsTotal)

      allocated-IsTotal : (n : ℕ) (pkt : Option ℕ) → IsTotal hw (allocated hw n pkt)
      unfolding allocated
      allocated-IsTotal n none = drop_frame-IsTotal n
      allocated-IsTotal n (some pkt) = deliver-IsTotal pkt n

      pub rx-IsTotal : IsTotal hw (rx hw)
      unfolding rx
      rx-IsTotal = search (total_rules, rx_alloc-IsTotal, allocated-IsTotal) depth 20
