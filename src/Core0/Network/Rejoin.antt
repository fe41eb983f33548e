-- ===== src/Core0/Network/Rejoin.antt =====
-- The rejoin of a multicast group (src/eth_id.c) over an IGMP whose groups count their members, as
-- the comment of `force_multicast_rejoin` describes it.
use rp2350_zephyr_stepper.Prelude.{
  List, [], ◌∷◌, ℕ, zero, suc, ◌+◌, ◌<◌, ◌≡◌, true, false, Option, some, arith, refl,
}
use rp2350_zephyr_stepper.Core0.Network.{
  Call, work_init, dhcpv4_start, Stack, App, leave_group, join_group, force_multicast_rejoin,
}

-- `members a e` counts the joins of a group, and `reports a e` the membership reports for it that
-- went out. A leave takes one join off, and fails when there is none. A join sends a report only
-- when it is the first.
pub record IsIgmp {E : Type 0} (stack : Stack E) (members reports : ℕ → E → ℕ) : Type 0 where
  pub leave_member :
      (iface a n : ℕ) (e : E)
      → members a e ≡ suc n
      → ((stack.leave iface a e).0 ≡ true)
        × (members a (stack.leave iface a e).1 ≡ n)
        × (reports a (stack.leave iface a e).1 ≡ reports a e)
  pub leave_stranger :
      (iface a : ℕ) (e : E)
      → members a e ≡ 0
      → ((stack.leave iface a e).0 ≡ false)
        × (members a (stack.leave iface a e).1 ≡ 0)
        × (reports a (stack.leave iface a e).1 ≡ reports a e)
  pub join_first :
      (iface a : ℕ) (e : E)
      → members a e ≡ 0
      → (members a (stack.join iface a e).1 ≡ 1)
        × (reports a (stack.join iface a e).1 ≡ reports a e + 1)

-- The initialisations of the refresh work, and the starts of the DHCP client, among some calls.
abbrev pub inits : List Call → ℕ
inits [] = 0
inits (work_init ∷ cs) = suc (inits cs)
inits (_ ∷ cs) = inits cs

abbrev pub starts : List Call → ℕ
starts [] = 0
starts (dhcpv4_start iface ∷ cs) = suc (starts cs)
starts (_ ∷ cs) = starts cs

-- The rejoin has ended, with the group joined once and one report more.
pub record IsRejoined {E : Type 0} (members reports : ℕ → E → ℕ) (addr : ℕ) (s : App E)
    (o : Option (App E)) : Type 0 where
  pub after : App E
  pub ends : o ≡ some after
  pub joined_once : members addr after.env ≡ 1
  pub reported : reports addr after.env ≡ reports addr s.env + 1
  pub inits_kept : inits after.calls ≡ inits s.calls
  pub starts_kept : starts after.calls ≡ starts s.calls
  pub iface_kept : after.refresh_iface ≡ s.refresh_iface

module _ {E : Type 0} {stack : Stack E} {members reports : ℕ → E → ℕ}
    (igmp : IsIgmp stack members reports) where
  -- Over an IGMP that counts the joins of a group and reports only a first one, the rejoin of a
  -- group with n joins comes to its end with any fuel above n, and leaves the group joined once,
  -- with exactly one more report sent.
  pub force_multicast_rejoin-IsRejoined :
      (fuel iface addr n : ℕ) (s : App E)
      → members addr s.env ≡ n
      → n < fuel
      → IsRejoined members reports addr s (force_multicast_rejoin stack fuel iface addr s)
  unfolding force_multicast_rejoin leave_group join_group
  force_multicast_rejoin-IsRejoined zero iface addr n s h k = absurd (omega arith)
  force_multicast_rejoin-IsRejoined (suc fuel) iface addr zero s h k =
      let (stays, gone, same) = igmp.leave_stranger iface addr s.env h in
      let (once, more) = igmp.join_first iface addr (stack.leave iface addr s.env).1 gone in
      rw (force_multicast_rejoin, stays)
        (record {
          after = _;
          ends = refl;
          joined_once = once;
          reported = omega (arith, same, more);
          iface_kept = refl;
          inits_kept = refl;
          starts_kept = refl;
        })
  force_multicast_rejoin-IsRejoined (suc fuel) iface addr (suc n) s h k =
      let (leaves, left, same) = igmp.leave_member iface addr n s.env h in
      let s' = (leave_group stack iface addr s).1 in
      let r = force_multicast_rejoin-IsRejoined fuel iface addr n s' left (omega arith) in
      rw (force_multicast_rejoin, leaves)
        (record {
          after = r.after;
          ends = r.ends;
          joined_once = r.joined_once;
          reported = omega (arith, r.reported, same);
          iface_kept = r.iface_kept;
          inits_kept = r.inits_kept;
          starts_kept = r.starts_kept;
        })
