-- ===== src/Core0/BootTests.antt =====
-- The theorems on src/core1_launch.c, src/eth_id.c and src/main.c at concrete inputs.
use rp2350_zephyr_stepper.Prelude.{
  ℕ, zero, suc, ◌≡◌, ◌<◌, ◌⊎◌, inl, inr, Bool, true, false, Option, none, some, [], ◌∷◌, arith,
  refl, ◌+◌, ◌*◌, ◌≤◌, length, get_or, if◌then◌else◌,
}
use rp2350_zephyr_stepper.Lan9250.Tests.{Toy, toy, toy-IsKernel, world}
use rp2350_zephyr_stepper.Core0.Mailbox.{ok, Mbox}
use rp2350_zephyr_stepper.Core0.Ptp.{Port, no_flags}
use rp2350_zephyr_stepper.Core0.Main.{System, main}
use rp2350_zephyr_stepper.Core0.Main.Boots.{IsBooted, main-IsBooted}
use rp2350_zephyr_stepper.Core0.Launch.{
  Chip, Launch, until, drained_fifo, core1_launch, cmd_sequence, core1_ram_base,
}
use rp2350_zephyr_stepper.Core0.Launch.Image.{Image, blob_of, at_main, core1_launch-at_main}
use rp2350_zephyr_stepper.Core1.Start.{vector_table}
use rp2350_zephyr_stepper.Core1.Start.Bss.{is_bss}
use rp2350_zephyr_stepper.Core0.Launch.Handshake.{
  Yields, IsRom, IsEchoed, Settles, core1_launch-Yields,
}
use rp2350_zephyr_stepper.Core0.Network.{
  Stack, App, if_up, ipv4_addr_add, mdns_group, force_multicast_rejoin,
}
use rp2350_zephyr_stepper.Core0.Network.Rejoin.{
  IsIgmp, IsRejoined, force_multicast_rejoin-IsRejoined,
}
use rp2350_zephyr_stepper.Core0.Network.Events.{IsCounted, handle_all, handle_all-IsCounted}

-- A boot ROM with at most one word in its FIFO, which answers some words with the next number.
record Rom : Type 0 where
  queue : Option ℕ
  wrong : ℕ

abbrev is_some : Option ℕ → Bool
is_some none = false
is_some (some w) = true

abbrev word_of : Option ℕ → ℕ
word_of none = 0
word_of (some w) = w

abbrev answered : ℕ → ℕ → Rom
answered zero cmd = record { queue = some cmd; wrong = 0 }
answered (suc n) cmd = record { queue = some (suc cmd); wrong = n }

abbrev chip : Chip Rom
chip = record {
  fifo_vld = λ e. (is_some e.queue, e);
  fifo_rdy = λ e. (true, e);
  fifo_rd = λ e. (word_of e.queue, record e { queue = none });
  fifo_wr = λ cmd e. answered e.wrong cmd;
  sev = λ e. e;
  set_proc1_off = λ e. e;
  clear_proc1_off = λ e. record e { queue = some 0 };
  proc1_is_off = λ e. (true, e);
}

drains :
    (q : Option ℕ) (n : ℕ)
    → Settles (λ e. e.wrong) n (drained_fifo chip 2 (record { queue = q; wrong = n }))
unfolding drained_fifo
drains none n = record {
  end = record { queue = none; wrong = n };
  ends = refl;
  no_worse = omega arith;
}
drains (some w) n = record {
  end = record { queue = none; wrong = n };
  ends = refl;
  no_worse = omega arith;
}

responds : (cmd n : ℕ) → Settles {E = Rom} (λ e. e.wrong) n (until 2 chip.fifo_vld (answered n cmd))
unfolding until
responds cmd zero = record { end = answered 0 cmd; ends = refl; no_worse = omega arith }
responds cmd (suc n) = record { end = answered (suc n) cmd; ends = refl; no_worse = omega arith }

echoes :
    (cmd n : ℕ) (e' : Rom)
    → until 2 chip.fifo_vld (answered n cmd) ≡ some e'
    → ((chip.fifo_rd e').0 ≡ cmd) ⊎ ((chip.fifo_rd e').1.wrong < n)
unfolding until
echoes cmd zero e' h = inl (ground arith)
echoes cmd (suc n) e' h = inr (ground arith)

rom : IsRom chip 2 (λ e. e.wrong)
unfolding until
rom = record {
  stops = λ e. record { end = e; ends = refl; no_worse = omega arith };
  starts = λ e. record { end = record e { queue = some 0 }; ends = refl; no_worse = omega arith };
  reads = λ e. omega arith;
  drains = λ e. drains e.queue e.wrong;
  wakes = λ e. omega arith;
  takes = λ e. record { end = e; ends = refl; no_worse = omega arith };
  responds = λ cmd e. responds cmd e.wrong;
  echoes = λ cmd e e' h. echoes cmd e.wrong e' h;
}

abbrev powered : Launch Rom
powered = record {
  env = record { queue = none; wrong = 2 };
  ram = 1 ∷ 1 ∷ 1 ∷ 1 ∷ [];
  written = [];
  responses = [];
}

core1_launch-Yields_example :
    Yields
      (λ _ s'.
        IsEchoed (cmd_sequence core1_ram_base 0x2006_9000 0x2006_2041) 6 s'
        × (s'.ram ≡ 0x2006_9000 ∷ 0x2006_2041 ∷ 1 ∷ 1 ∷ []))
      (core1_launch chip 2 19 (0x2006_9000 ∷ 0x2006_2041 ∷ []) powered)
core1_launch-Yields_example =
    core1_launch-Yields rom 19 (0x2006_9000 ∷ 0x2006_2041 ∷ []) powered (omega arith)

-- Two words of code behind the vector table, and two words of bss behind them.
abbrev image : Image
image = record {
  stack_top = 0x2008_2000;
  reset_handler = 0x2006_2041;
  default_handler = 0x2006_2061;
  code = 7 ∷ 8 ∷ [];
  bss_start = 0x2006_2048;
  bss_end = 0x2006_2050;
}

image-fits : core1_ram_base + 4 * length (blob_of image) ≤ image.bss_start
unfolding vector_table
image-fits = omega arith

core1_launch-at_main_example :
    Yields
      (λ _ s'.
        IsEchoed (cmd_sequence core1_ram_base 0x2008_2000 0x2006_2041) 6 s'
        × ((n : ℕ)
            → n < length (blob_of image)
            → at_main 2 image s'.ram (core1_ram_base + 4 * n) ≡ some (get_or (blob_of image) n 0))
        × ((a : ℕ) → is_bss 0x2006_2048 0x2006_2050 a ≡ true → at_main 2 image s'.ram a ≡ some 0))
      (core1_launch chip 2 19 (blob_of image) powered)
core1_launch-at_main_example =
    core1_launch-at_main image 2 (omega arith) rom 19 powered image-fits (omega arith)

-- A network stack with one group.
record Igmp : Type 0 where
  joined : Bool
  sent : ℕ

abbrev stack : Stack Igmp
stack = record {
  leave = λ iface a e. (e.joined, record e { joined = false });
  join =
      λ iface a e. (true, record { joined = true; sent = if e.joined then e.sent else e.sent + 1 });
  perform = λ c e. e;
}

abbrev members : ℕ → Igmp → ℕ
members a e = if e.joined then 1 else 0

abbrev reports : ℕ → Igmp → ℕ
reports a e = e.sent

igmp : IsIgmp stack members reports
igmp = record {
  leave_member = λ iface a n e h. ground arith;
  leave_stranger = λ iface a e h. ground arith;
  join_first = λ iface a e h. ground arith;
}

abbrev app : App Igmp
app = record { env = record { joined = true; sent = 0 }; refresh_iface = none; calls = [] }

force_multicast_rejoin-IsRejoined_example :
    IsRejoined members reports mdns_group app (force_multicast_rejoin stack 2 1 mdns_group app)
force_multicast_rejoin-IsRejoined_example =
    force_multicast_rejoin-IsRejoined igmp 2 1 mdns_group 1 app refl (omega arith)

bounded : (e : Igmp) → members mdns_group e < 2
bounded e = ground arith

handle_all-IsCounted_example :
    IsCounted
      (ipv4_addr_add ∷ if_up ∷ ipv4_addr_add ∷ if_up ∷ [])
      1
      (handle_all stack 2 (ipv4_addr_add ∷ if_up ∷ ipv4_addr_add ∷ if_up ∷ []) 1 app)
handle_all-IsCounted_example =
    handle_all-IsCounted igmp 2 bounded (ipv4_addr_add ∷ if_up ∷ ipv4_addr_add ∷ if_up ∷ []) 1 app
      refl refl

abbrev mbox : Mbox (Unit {0})
mbox = record {
  send = λ word e. (ok tt, [], e);
  sleep = λ e. (none, e);
  device_is_ready = λ e. true;
  register_callback = λ e. (ok tt, e);
  set_enabled = λ e. (ok tt, e);
}

abbrev port : Port Toy
port = record {
  device_is_ready = λ e. true;
  lookup_by_dev = λ e. some 1;
  sync_state = λ i e. (some no_flags, e);
}

abbrev system : System Rom (Unit {0}) Igmp Toy
system = record {
  names = record { stepper_id = []; hostnames = [] };
  launch = powered;
  core0 = record { env = tt; reply_sem = 1; last_reply = 0; out = [] };
  app = app;
  world = world;
}

main-IsBooted_example :
    IsBooted
      (0x73 ∷ [])
      (0x2006_9000 ∷ 0x2006_2041 ∷ 1 ∷ 1 ∷ [])
      (some (some (10 ∷ 255 ∷ [])))
      (1 ∷ [])
      system
      (main chip mbox stack toy port 2 19
        (0x2006_9000 ∷ 0x2006_2041 ∷ [])
        (0x73 ∷ [])
        (some (some (10 ∷ 255 ∷ [])))
        (1 ∷ [])
        system)
main-IsBooted_example =
    main-IsBooted rom mbox stack toy-IsKernel port (λ i e. omega arith) 19
      (0x2006_9000 ∷ 0x2006_2041 ∷ []) (0x73 ∷ []) (some (some (10 ∷ 255 ∷ []))) (1 ∷ []) system
      (omega arith)
