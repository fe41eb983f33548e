-- ===== src/Lan9250/Api.antt =====
-- The entries of the driver's tables for the network stack and the PTP clock
-- (drivers/eth_lan9250/eth_lan9250.c and ptp_clock_lan9250.c).
use rp2350_zephyr_stepper.Prelude.{
  false, ◌-◌, ◌^◌, min, suc, ℕ, Bool, Option, some, List, [], ◌∷◌, if◌then◌else◌, ℤ,
}
use rp2350_zephyr_stepper.Lan9250.World.{
  ok, Hw, Io, pure, fail, ◌>>=◌, ◌>>◌, emit, carrier, get_ctx, put_ctx, enodev,
}
use rp2350_zephyr_stepper.Lan9250.Clock.{Rate, ptp_clock_adjust, ptp_clock_rate_adjust}

-- The bits of `enum ethernet_hw_caps` that the driver sets.
pub data Cap : Type 0 where
  ethernet_link_10base ethernet_link_100base ethernet_ptp ethernet_hw_filtering : Cap
  ethernet_promisc_mode : Cap

module _ {E : Type 0} (hw : Hw E) where
  unfoldable pub get_capabilities : List Cap
  get_capabilities =
      ethernet_link_10base
      ∷ ethernet_link_100base
      ∷ ethernet_ptp
      ∷ ethernet_hw_filtering
      ∷ (if hw.promiscuous_mode then ethernet_promisc_mode ∷ [] else [])

  unfoldable pub get_ptp_clock : Io E (Option ℕ)
  get_ptp_clock w = (ok w.ctx.ptp_clock, w)

  unfoldable pub ptp_clock_api_adjust : ℤ → Io E (Unit {0})
  ptp_clock_api_adjust increment = ptp_clock_adjust hw increment

  unfoldable pub ptp_clock_api_rate_adjust : Rate → ℕ → Io E (Unit {0})
  ptp_clock_api_rate_adjust rate ratio = ptp_clock_rate_adjust hw rate ratio

  -- `port` is the clock's own device, and `is_ready` what `device_is_ready` says of the LAN9250.
  unfoldable pub ptp_clock_init : Bool → ℕ → Io E (Unit {0})
  ptp_clock_init is_ready port =
      if is_ready
      then (do c ← get_ctx; put_ctx (record c { ptp_clock = some port }))
      else fail enodev

  -- The link address that the interface is given; the carrier is off until the thread sees a link.
  unfoldable pub iface_init : Io E (List ℕ)
  iface_init = do c ← get_ctx; emit (carrier false); pure c.mac_address

-- The interrupt's callback, as the count of `int_sem`.
unfoldable pub gpio_callback : ℕ → ℕ
gpio_callback int_sem = min (2 ^ 32 - 1) (suc int_sem)
