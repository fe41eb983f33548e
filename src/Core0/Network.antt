-- ===== src/Core0/Network.antt =====
-- Multicast groups and network events (src/eth_id.c, src/main.c and the rejoin of
-- src/mdns_service.c). The network stack of Zephyr is the parameter `Stack` over an environment
-- that no code here looks into; an address is the number that `net_addr_pton` makes of its text.
pub mod Rejoin
pub mod Events
use rp2350_zephyr_stepper.Prelude.{
  ℕ, zero, suc, Bool, true, false, Option, none, some, List, [], ◌∷◌,
}

pub data Call : Type 0 where
  dhcpv4_stop dhcpv4_start resend_reports : ℕ → Call
  igmp_leave igmp_join : ℕ → Call
  work_init : Call
  work_reschedule : ℕ → Call

-- `net_ipv4_igmp_leave` and `net_ipv4_igmp_join` of an address, with true for the result 0, and the
-- calls whose result the code does not look at.
pub record Stack (E : Type 0) : Type 0 where
  pub leave : ℕ → ℕ → E → Bool × E
  pub join : ℕ → ℕ → E → Bool × E
  pub perform : Call → E → E

-- The static `multicast_refresh_iface`, and the calls that were made, newest first.
pub record App (E : Type 0) : Type 0 where
  pub env : E
  pub refresh_iface : Option ℕ
  pub calls : List Call

-- 224.0.0.251, 224.0.1.129 and 224.0.0.107
abbrev pub mdns_group : ℕ
mdns_group = 0xe000_00fb

abbrev pub ptp_general_group : ℕ
ptp_general_group = 0xe000_0181

abbrev pub ptp_peer_group : ℕ
ptp_peer_group = 0xe000_006b

-- MULTICAST_MEMBERSHIP_REFRESH_INTERVAL, in milliseconds.
abbrev pub refresh_interval : ℕ
refresh_interval = 30_000

-- The events of `mgmt_cb`: NET_EVENT_IF_UP, NET_EVENT_IPV4_ADDR_ADD, and any other.
pub data NetEvent : Type 0 where
  if_up ipv4_addr_add other_event : NetEvent

module _ {E : Type 0} (stack : Stack E) where
  unfoldable pub call : Call → App E → App E
  call c s = record s { env = stack.perform c s.env; calls = c ∷ s.calls }

  unfoldable pub leave_group : ℕ → ℕ → App E → Bool × App E
  leave_group iface addr s =
      let (left, e) = stack.leave iface addr s.env in
      (left, record s { env = e; calls = igmp_leave addr ∷ s.calls })

  unfoldable pub join_group : ℕ → ℕ → App E → App E
  join_group iface addr s = record s {
    env = (stack.join iface addr s.env).1;
    calls = igmp_join addr ∷ s.calls;
  }

  -- `none` is the drain loop out of fuel.
  unfoldable pub force_multicast_rejoin : ℕ → ℕ → ℕ → App E → Option (App E)
  unfolding leave_group join_group
  force_multicast_rejoin zero iface addr s = none
  force_multicast_rejoin (suc fuel) iface addr s =
      let (left, s') = leave_group iface addr s in
      elim left [
        | true ↦ force_multicast_rejoin fuel iface addr s'
        | false ↦ some (join_group iface addr s')
      ]

  unfoldable pub multicast_membership_refresh_handler : App E → App E
  unfolding call
  multicast_membership_refresh_handler s =
      let resent : App E = elim s.refresh_iface [
        | none ↦ s
        | some iface ↦ call (resend_reports iface) s
      ] in
      call (work_reschedule refresh_interval) resent

  unfoldable pub multicast_membership_refresh_start : ℕ → App E → App E
  unfolding call
  multicast_membership_refresh_start iface s = elim s.refresh_iface [
    | some _ ↦ s
    | none ↦
        call (work_reschedule refresh_interval)
          (call work_init (record s { refresh_iface = some iface }))
  ]

  unfoldable pub start_dhcpv4_client : ℕ → App E → App E
  unfolding call
  start_dhcpv4_client iface s = call (dhcpv4_start iface) s

  module _ (fuel : ℕ) where
    unfoldable pub ptp_multicast_rejoin : ℕ → App E → Option (App E)
    unfolding force_multicast_rejoin
    ptp_multicast_rejoin iface s = elim (force_multicast_rejoin fuel iface ptp_general_group s) [
      | none ↦ none
      | some s' ↦ force_multicast_rejoin fuel iface ptp_peer_group s'
    ]

    unfoldable pub mdns_force_multicast_rejoin : ℕ → App E → Option (App E)
    unfolding force_multicast_rejoin
    mdns_force_multicast_rejoin iface s = force_multicast_rejoin fuel iface mdns_group s

    -- `start_refresh` of an IPv4 address that was added, once the rejoin has ended.
    unfoldable pub start_refresh : ℕ → Option (App E) → Option (App E)
    unfolding multicast_membership_refresh_start
    start_refresh iface none = none
    start_refresh iface (some s) = some (multicast_membership_refresh_start iface s)

    unfoldable pub handler : NetEvent → ℕ → App E → Option (App E)
    unfolding call mdns_force_multicast_rejoin start_refresh
    handler if_up iface s = some (call (dhcpv4_start iface) (call (dhcpv4_stop iface) s))
    handler ipv4_addr_add iface s = start_refresh iface (mdns_force_multicast_rejoin iface s)
    handler other_event iface s = some s
