-- ===== src/Core0/Network/Events.antt =====
-- The network events of a run, one after the other (`handler` of src/main.c with src/eth_id.c).
use rp2350_zephyr_stepper.Prelude.{
  Bool-cases, inl, inr, ℕ, suc, ◌<◌, ◌≡◌, Bool, true, false, Option, none, some, List, [], ◌∷◌,
  arith, refl, ap, ◌∙◌, if◌then◌else◌,
}
use rp2350_zephyr_stepper.Core0.Network.{
  Stack, App, NetEvent, if_up, ipv4_addr_add, other_event, mdns_group, refresh_interval, work_init,
  work_reschedule, call, start_refresh, handler, mdns_force_multicast_rejoin,
  multicast_membership_refresh_start,
}
use rp2350_zephyr_stepper.Core0.Network.Rejoin.{
  IsIgmp, inits, starts, force_multicast_rejoin-IsRejoined,
}

abbrev pub handle_next : {E : Type 0} → Stack E → ℕ → NetEvent → ℕ → Option (App E) → Option (App E)
handle_next stack fuel ev iface none = none
handle_next stack fuel ev iface (some s) = handler stack fuel ev iface s

-- The events of a run, the last one first.
abbrev pub handle_all : {E : Type 0} → Stack E → ℕ → List NetEvent → ℕ → App E → Option (App E)
handle_all stack fuel [] iface s = some s
handle_all stack fuel (ev ∷ evs) iface s =
    handle_next stack fuel ev iface (handle_all stack fuel evs iface s)

abbrev pub ups : List NetEvent → ℕ
ups [] = 0
ups (if_up ∷ evs) = suc (ups evs)
ups (ipv4_addr_add ∷ evs) = ups evs
ups (other_event ∷ evs) = ups evs

abbrev pub has_address : List NetEvent → Bool
has_address [] = false
has_address (if_up ∷ evs) = has_address evs
has_address (ipv4_addr_add ∷ evs) = true
has_address (other_event ∷ evs) = has_address evs

-- The run has ended. The DHCP client was started once for each link that came up, and the refresh
-- work set up once, for this interface, if an address was added at all.
pub record IsCounted {E : Type 0} (evs : List NetEvent) (iface : ℕ) (o : Option (App E))
    : Type 0 where
  pub after : App E
  pub ends : o ≡ some after
  pub started : starts after.calls ≡ ups evs
  pub set_up : inits after.calls ≡ (if has_address evs then 1 else 0)
  pub refreshed : after.refresh_iface ≡ (if has_address evs then some iface else none)

module _ {E : Type 0} {stack : Stack E} {members reports : ℕ → E → ℕ}
    (igmp : IsIgmp stack members reports) (fuel : ℕ)
    (bounded : (e : E) → members mdns_group e < fuel) where
  refresh-running :
      (iface i : ℕ) (s : App E)
      → s.refresh_iface ≡ some i
      → multicast_membership_refresh_start stack iface s ≡ s
  unfolding multicast_membership_refresh_start
  refresh-running iface i s h = ground arith

  refresh-started :
      (iface : ℕ) (s : App E)
      → s.refresh_iface ≡ none
      → multicast_membership_refresh_start stack iface s
        ≡ call stack
            (work_reschedule refresh_interval)
            (call stack work_init (record s { refresh_iface = some iface }))
  unfolding multicast_membership_refresh_start
  refresh-started iface s h = ground arith

  start-IsCounted :
      (evs : List NetEvent) (iface : ℕ) (s : App E)
      → starts s.calls ≡ ups evs
      → inits s.calls ≡ (if has_address evs then 1 else 0)
      → s.refresh_iface ≡ (if has_address evs then some iface else none)
      → IsCounted
          (ipv4_addr_add ∷ evs)
          iface
          (some (multicast_membership_refresh_start stack iface s))
  unfolding call
  start-IsCounted evs iface s a b c = elim (Bool-cases (has_address evs)) [
    | inl before ↦
        let running : s.refresh_iface ≡ some iface = rw before at c in
        rw (refresh-running iface iface s running) (record {
          after = s;
          ends = refl;
          started = a;
          set_up = rw before at b;
          refreshed = running;
        })
    | inr first ↦ rw (refresh-started iface s (rw first at c)) (record {
      after = _;
      ends = refl;
      started = a;
      set_up = ap suc (rw first at b);
      refreshed = refl;
    })
  ]

  handler-IsCounted :
      (ev : NetEvent) (evs : List NetEvent) (iface : ℕ) (o : Option (App E))
      → IsCounted evs iface o
      → IsCounted (ev ∷ evs) iface (handle_next stack fuel ev iface o)
  unfolding handler call start_refresh mdns_force_multicast_rejoin
  handler-IsCounted if_up evs iface o i = rw i.ends (record {
    after = _;
    ends = refl;
    started = ap suc i.started;
    set_up = i.set_up;
    refreshed = i.refreshed;
  })
  handler-IsCounted ipv4_addr_add evs iface o i =
      let r =
        force_multicast_rejoin-IsRejoined igmp fuel iface mdns_group _ i.after refl
          (bounded i.after.env) in
      rw (i.ends, r.ends)
        (start-IsCounted evs iface r.after (r.starts_kept ∙ i.started) (r.inits_kept ∙ i.set_up)
          (r.iface_kept ∙ i.refreshed))
  handler-IsCounted other_event evs iface o i = rw i.ends (record {
    after = i.after;
    ends = refl;
    started = i.started;
    set_up = i.set_up;
    refreshed = i.refreshed;
  })

  -- Over an IGMP with counted groups whose mDNS group has fewer members than the fuel, any
  -- sequence of network events is handled to its end. The DHCP client has been started once for
  -- each link that came up, and the periodic refresh has been set up once, for this interface, if
  -- there was an event of an added address, and otherwise not at all.
  pub handle_all-IsCounted :
      (evs : List NetEvent) (iface : ℕ) (s : App E)
      → s.calls ≡ []
      → s.refresh_iface ≡ none
      → IsCounted evs iface (handle_all stack fuel evs iface s)
  handle_all-IsCounted [] iface s h k = record {
    after = s;
    ends = refl;
    started = ap starts h;
    set_up = ap inits h;
    refreshed = k;
  }
  handle_all-IsCounted (ev ∷ evs) iface s h k =
      handler-IsCounted ev evs iface _ (handle_all-IsCounted evs iface s h k)
