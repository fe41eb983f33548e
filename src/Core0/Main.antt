-- ===== src/Core0/Main.antt =====
-- `main` of the application (src/main.c), which calls the parts one after the other. Each part has
-- its own state and environment; the network events come in when the handlers are registered.
pub mod Boots
use rp2350_zephyr_stepper.Prelude.{ℕ, Option, none, some, List, [], ◌∷◌}
use rp2350_zephyr_stepper.Lan9250.World
use rp2350_zephyr_stepper.Lan9250.World.{World, Hw}
use rp2350_zephyr_stepper.Lan9250.Bus.{wait}
use rp2350_zephyr_stepper.Core0.Hostname.{Names, set_unique_hostname}
use rp2350_zephyr_stepper.Core0.Launch.{Chip, Launch, core1_launch}
use rp2350_zephyr_stepper.Core0.Mailbox.{Core0, Mbox, stepper_mbox_init}
use rp2350_zephyr_stepper.Core0.Network.{Stack, App, start_dhcpv4_client}
use rp2350_zephyr_stepper.Core0.Ptp.{Port, pps_arm_when_synced}

pub record System (EL EM EN EW : Type 0) : Type 0 where
  pub names : Names
  pub launch : Launch EL
  pub core0 : Core0 EM
  pub app : App EN
  pub world : World EW

-- A call whose result is not looked at; `none` is a call that does not return.
abbrev pub returned : {A E : Type 0} → World.Ret A × World E → Option (World E)
returned (World.ok a, w) = some w
returned (World.err e, w) = some w
returned (World.hang, w) = none

module _ {EN : Type 0} (stack : Stack EN) where
  -- `net_if_foreach(start_dhcpv4_client, NULL);`
  unfoldable pub start_all : List ℕ → App EN → App EN
  start_all [] s = s
  start_all (iface ∷ ifaces) s = start_all ifaces (start_dhcpv4_client stack iface s)

module _ {EW : Type 0} (hw : Hw EW) (port : Port EW) where
  -- From `k_sleep(K_SECONDS(15))` on.
  unfoldable pub settle_and_arm : World EW → Option (World EW)
  settle_and_arm w = returned (pps_arm_when_synced hw port 121 60_000 (wait hw 15_000 w).1)

module _ {EL EM EN EW : Type 0} where
  unfoldable pub finish : System EL EM EN EW → Option (World EW) → Option (System EL EM EN EW)
  finish s none = none
  finish s (some w) = some (record s { world = w })

module _ {EL EM EN EW : Type 0} (chip : Chip EL) (mbox : Mbox EM) (stack : Stack EN) (hw : Hw EW)
    (port : Port EW) where
  -- What follows the launch of core1.
  unfoldable pub after_launch :
      List ℕ → System EL EM EN EW → Option (Unit {0} × Launch EL) → Option (System EL EM EN EW)
  unfolding start_all settle_and_arm finish
  after_launch ifaces s none = none
  after_launch ifaces s (some (_, l)) =
      let s' : System EL EM EN EW = record s {
        launch = l;
        core0 = (stepper_mbox_init mbox s.core0).1;
        app = start_all stack ifaces s.app;
      } in
      finish s' (settle_and_arm hw port s.world)

  -- Up to the endless loop. The host name and the interfaces come from Zephyr's configuration.
  unfoldable pub main :
      ℕ
      → ℕ
      → List ℕ
      → List ℕ
      → Option (Option (List ℕ))
      → List ℕ
      → System EL EM EN EW
      → Option (System EL EM EN EW)
  unfolding after_launch
  main fuel rounds blob base addr ifaces s =
      let s' : System EL EM EN EW = record s { names = set_unique_hostname base addr s.names } in
      after_launch ifaces s' (core1_launch chip fuel rounds blob s'.launch)
