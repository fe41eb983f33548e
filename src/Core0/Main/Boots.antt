-- ===== src/Core0/Main/Boots.antt =====
-- `main` reaches its endless loop (src/main.c).
use rp2350_zephyr_stepper.Prelude.{
  ℕ, ◌+◌, ◌*◌, ◌<◌, ◌≡◌, refl, Option, some, List, [], ◌∷◌, ◌++◌, length, drop, get_or, arith,
}
use rp2350_zephyr_stepper.Lan9250.World
use rp2350_zephyr_stepper.Lan9250.World.{World, Hw}
use rp2350_zephyr_stepper.Lan9250.Bus.{wait}
use rp2350_zephyr_stepper.Lan9250.Bus.Total.{IsKernel, Ends}
use rp2350_zephyr_stepper.Core0.Launch.{Chip, Launch, cmd_sequence, core1_ram_base, core1_launch}
use rp2350_zephyr_stepper.Core0.Launch.Handshake.{
  IsRom, IsEchoed, Yields, yields, core1_launch-Yields,
}
use rp2350_zephyr_stepper.Core0.Mailbox.{Mbox}
use rp2350_zephyr_stepper.Core0.Network.{Stack, App, call, start_dhcpv4_client}
use rp2350_zephyr_stepper.Core0.Network.Rejoin.{starts}
use rp2350_zephyr_stepper.Core0.Hostname.{set_unique_hostname}
use rp2350_zephyr_stepper.Core0.Ptp.{Port, pps_arm_when_synced}
use rp2350_zephyr_stepper.Core0.Ptp.Arms.{KeepsTime, pps_arm_when_synced-IsTotal}
use rp2350_zephyr_stepper.Core0.Main.{
  System, returned, start_all, settle_and_arm, finish, after_launch, main,
}

module _ {EN : Type 0} (stack : Stack EN) where
  start_all-starts :
      (ifaces : List ℕ) (s : App EN)
      → starts (start_all stack ifaces s).calls ≡ length ifaces + starts s.calls
  unfolding start_all start_dhcpv4_client call
  start_all-starts [] s = omega arith
  start_all-starts (iface ∷ ifaces) s =
      omega (arith, start_all-starts ifaces (start_dhcpv4_client stack iface s))

module _ {EW : Type 0} (hw : Hw EW) (kernel : IsKernel hw) (port : Port EW)
    (keeps : KeepsTime hw port) where
  returned-some :
      {A : Type 0} (n : ℕ) (r : World.Ret A × World EW)
      → Ends hw n r
      → (w : World EW) × (returned r ≡ some w)
  returned-some n (World.ok a, w) e = (w, refl)
  returned-some n (World.err x, w) e = (w, refl)
  returned-some n (World.hang, w) e = absurd e

  settle_and_arm-some : (w : World EW) → (w' : World EW) × (settle_and_arm hw port w ≡ some w')
  unfolding settle_and_arm
  settle_and_arm-some w =
      let w1 = (wait hw 15_000 w).1 in
      let e = pps_arm_when_synced-IsTotal hw kernel port keeps 120 60_000 (omega arith) w1 in
      returned-some (hw.uptime w1.env) (pps_arm_when_synced hw port 121 60_000 w1) e

-- `main` is in its endless loop: core1 was told to start with the image, its name is set, and the
-- DHCP client of each interface was started.
pub record IsBooted {EL EM EN EW : Type 0} (base image : List ℕ) (addr : Option (Option (List ℕ)))
    (ifaces : List ℕ) (s : System EL EM EN EW) (o : Option (System EL EM EN EW)) : Type 0 where
  pub after : System EL EM EN EW
  pub ends : o ≡ some after
  pub launched :
      IsEchoed (cmd_sequence core1_ram_base (get_or image 0 0) (get_or image 1 0)) 6 after.launch
  pub loaded : after.launch.ram ≡ image
  pub name : after.names ≡ set_unique_hostname base addr s.names
  pub clients : starts after.app.calls ≡ length ifaces + starts s.app.calls

module _ {EL EM EN EW : Type 0} {chip : Chip EL} {fuel : ℕ} {wrong : EL → ℕ}
    (rom : IsRom chip fuel wrong) (mbox : Mbox EM) (stack : Stack EN) {hw : Hw EW}
    (kernel : IsKernel hw) (port : Port EW) (keeps : KeepsTime hw port) where
  -- If every polling loop of the launch ends within its fuel, the boot ROM gives w wrong answers
  -- at most, the kernel's calls return, its waits last and its clock does not run back, main
  -- reaches its endless loop within 6 w + 7 rounds of the launch, with the image of core1 in its
  -- RAM and the launch sequence echoed, the host name set as set_unique_hostname does it, and the
  -- DHCP client of each interface started.
  pub main-IsBooted :
      (rounds : ℕ) (blob base : List ℕ) (addr : Option (Option (List ℕ))) (ifaces : List ℕ)
      (s : System EL EM EN EW)
      → 6 * wrong s.launch.env + 6 < rounds
      → IsBooted base
          (blob ++ drop (length blob) s.launch.ram)
          addr
          ifaces
          s
          (main chip mbox stack hw port fuel rounds blob base addr ifaces s)
  unfolding main after_launch finish
  main-IsBooted rounds blob base addr ifaces s h =
      after (core1_launch chip fuel rounds blob s.launch)
        (core1_launch-Yields rom rounds blob s.launch h)
    where
      image : List ℕ
      image = blob ++ drop (length blob) s.launch.ram

      named : System EL EM EN EW
      named = record s { names = set_unique_hostname base addr s.names }

      after :
          (r : Option (Unit {0} × Launch EL))
          → Yields
              (λ _ l.
                IsEchoed (cmd_sequence core1_ram_base (get_or image 0 0) (get_or image 1 0)) 6 l
                × (l.ram ≡ image))
              r
          → IsBooted base image addr ifaces s (after_launch chip mbox stack hw port ifaces named r)
      after _ (yields (e, k)) =
          let (w, armed) = settle_and_arm-some hw kernel port keeps s.world in
          rw armed (record {
            after = _;
            ends = refl;
            launched = e;
            loaded = k;
            name = refl;
            clients = start_all-starts stack ifaces s.app;
          })
