-- ===== src/Core0/TxTest/Packets.antt =====
-- The packet of `ptp txtest` (src/ptp_shell.c) is given away exactly once.
use rp2350_zephyr_stepper.Prelude.{
  ℕ, suc, ◌≡◌, false, Option, none, some, List, [], ◌∷◌, if◌then◌else◌, ◌==◌, arith, Bool-cases,
  inl, inr,
}
use rp2350_zephyr_stepper.Core0.TxTest.{
  Iface, Sender, PktCall, pkt_alloc, pkt_unref, try_send, logged, send_packet, fill_packet,
  with_packet, with_iface, cmd_ptp_txtest,
}

-- The allocations of a packet among some calls, and the calls that gave it away: to the pool, or to
-- the network interface that did not drop it.
abbrev pub allocated : ℕ → List PktCall → ℕ
allocated p [] = 0
allocated p (pkt_alloc q ∷ cs) = if q == p then suc (allocated p cs) else allocated p cs
allocated p (_ ∷ cs) = allocated p cs

abbrev pub given : ℕ → List PktCall → ℕ
given p [] = 0
given p (pkt_unref q ∷ cs) = if q == p then suc (given p cs) else given p cs
given p (try_send q false ∷ cs) = if q == p then suc (given p cs) else given p cs
given p (_ ∷ cs) = given p cs

abbrev pub IsEven : ℕ → List PktCall → Type 0
IsEven p cs = allocated p cs ≡ given p cs

module _ {E : Type 0} (net : Iface E) (p : ℕ) where
  fill-IsEven :
      (iface pkt : ℕ) (s : Sender E)
      → IsEven p s.calls
      → IsEven p (fill_packet net iface pkt (logged (pkt_alloc pkt) s)).1.calls
  unfolding fill_packet send_packet
  fill-IsEven iface pkt s h = ground arith

  with_packet-IsEven :
      (iface : ℕ) (pkt : Option ℕ) (s : Sender E)
      → IsEven p s.calls
      → IsEven p (with_packet net iface pkt s).1.calls
  unfolding with_packet
  with_packet-IsEven iface none s h = h
  with_packet-IsEven iface (some pkt) s h = fill-IsEven iface pkt s h

  with_iface-IsEven :
      (iface : Option ℕ) (s : Sender E)
      → IsEven p s.calls
      → IsEven p (with_iface net iface s).1.calls
  unfolding with_iface
  with_iface-IsEven none s h = h
  with_iface-IsEven (some iface) s h =
      let (pkt, e) = net.alloc iface 32 s.env in
      with_packet-IsEven iface pkt (record s { env = e }) h

  -- On every path of `ptp txtest`, errors included, a packet that is allocated is given away
  -- exactly once, to the pool or to an interface that did not drop it, if that holds of the calls
  -- before.
  pub cmd_ptp_txtest-IsEven :
      (s : Sender E) → IsEven p s.calls → IsEven p (cmd_ptp_txtest net s).1.calls
  unfolding cmd_ptp_txtest
  cmd_ptp_txtest-IsEven s h = elim (Bool-cases (net.device_is_ready s.env)) [
    | inl ready ↦ rw ready (with_iface-IsEven (net.lookup_by_dev s.env) s h)
    | inr absent ↦ rw absent h
  ]
