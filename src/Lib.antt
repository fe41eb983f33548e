-- ===== src/Lib.antt =====
-- RP2350-Zephyr-Stepper: a stepper motor controller with an Ethernet port and a PTP clock. The
-- repository has two programs for the two cores of the chip, which talk over the FIFO mailbox, and a
-- driver for the LAN9250 Ethernet controller.
--
-- Core1 is the bare-metal program of the second core (core1/core1_main.c, core1/mailbox_proto.h,
-- core1/regs.h):
-- - Core1/Float: a float as its bit pattern, with the comparisons of C. The arithmetic of the FPU is
--   the parameter Fpu; Motion/Speed and Motion/NanSpeed name the laws of IEEE-754 that they use.
-- - Core1/Protocol and Core1/Board: the mailbox constants; the static M, the words that core0 has
--   put into the FIFO, and the register writes, newest first. A write to TXF0 is a step of the motor,
--   a write to FIFO_WR a reply. A handler that waits for a word gives none.
-- - Core1/Motion: now_us, delay_us, hz_to_half_period, next_speed, feed_step and motion_start. The
--   loop of delay_us runs on fuel, which is enough when the timer gets there.
-- - Core1/Commands: handle_command, one function per case. Core1/Commands/Requests is the
--   protocol as core0 sees it.
-- - Core1/Main: the set-up, with Main/Startup for the pins (Core1/Pins) during it, and the main
--   loop as the relation Step: a word arrives, or a round runs.
--   A round's argument is the space that the PIO FIFO offers in it.
--
-- Lan9250 is the driver (drivers/eth_lan9250/eth_lan9250.c, eth_lan9250_priv.h and
-- ptp_clock_lan9250.c):
-- - Lan9250/Regs: the registers and bits. Lan9250/World: the driver's state (struct
--   lan9250_runtime), the calls of Zephyr as the parameter Hw over an environment, and the
--   functions as state passing with a return value that is ok, an error number, or hang. hang is a
--   loop out of fuel, or a wait for tx_rx_sem: lan9250_rx gives it in another thread, which does not
--   run inside a call of the model. The trace lists the SPI transfers and the
--   packet calls, and where bank_lock is taken and given back, which Lan9250/Locks is about.
-- - Lan9250/Bus: lan9250_write_sys_reg up to lan9250_write_phy_reg. The polling loops run on fuel;
--   Bus/Total shows that one round per millisecond of the time-out, and one more, is enough.
-- - Lan9250/Bus/Rules, Lan9250/Bus/Succeeds and Lan9250/Keeps: rulesets for search, by which a
--   function that is put together from others comes to an end, passes over every error, or keeps an
--   invariant.
-- - Lan9250/Setup: reset, configuration, MAC address. The check of HW_CFG has no time-out in the
--   source, and its fuel is a parameter; Init/Starts has what it needs.
-- - Lan9250/Clock: the 1588 clock, with Clock/Running for the chip's clock, which runs on during each
--   access, and Clock/Chip for what the driver does to it.
-- - Lan9250/Parse: lan9250_ptp_parse_header. Lan9250/Slots, Lan9250/Timestamps and
--   Lan9250/TxTimestamps: the matching of hardware timestamps to packets, as
--   lan9250_1588_rx_timestamp_check and lan9250_1588_tx_timestamp_check do it. Timestamps/Chip has
--   the capture registers of the chip; Timestamps/Late and Timestamps/Early run the check for two
--   frames, one after the other.
-- - Lan9250/Rx: lan9250_rx and lan9250_tx. Rx/Fifo and Rx/Content say what a chip whose RX data FIFO
--   is a list of bytes promises. Lan9250/Filter: lan9250_set_config with the hash filter;
--   Filter/Chip and Bus/Mac are about the MAC registers as the chip keeps them.
--   Lan9250/Init: lan9250_init and a round of lan9250_thread. Lan9250/Api: the tables of the driver.
--
-- Before its main program core1 runs its reset handler, Core1/Start (core1/start.c, core1/vectors.c),
-- and its pulses are made by the PIO program, Core1/Pio (core1/stepper.pio), which a state machine runs
-- cycle by cycle. The bss loop has one round of fuel for each word and one more. Core0/Launch/Image puts
-- the vector table, the launch and the reset handler together.
--
-- Core0 is the Zephyr application of the first core (src/):
-- - Core0/Mailbox and Core0/Stepper: the mailbox round trip and the stepper shell (stepper_shell.c).
--   Zephyr's mailbox driver and the C library are parameters; a command returns its result with the
--   semaphore, the last reply and the printed lines. Core0/Link puts core1's main loop at the other
--   end of the FIFO: it runs a round while core0 waits.
-- - Core0/Launch: core1_launch (core1_launch.c). The registers with the boot ROM behind them are a
--   parameter, each polling loop has its fuel, and so has the handshake.
-- - Core0/Network and Core0/Hostname: the multicast groups and network events (eth_id.c, main.c and
--   mdns_service.c), and the board's name. The drain loop's fuel is above the number of joins.
-- - Core0/Ptp and Core0/TxTest: the ptp shell (ptp_shell.c) over the functions of Lan9250. The wait
--   for a sync has one round of fuel for each half second of the longest wait, and one more.
-- - Core0/Main: main, which calls the parts above in order, each with a state of its own, and
--   Core0/Reset: the bootloader shell (bootloader_shell.c).
--
-- Not modelled: the DNS-SD table, option_handler, which only logs, the registration of handlers and
-- commands, the statistics getter of the driver, and the build. The lock hash_lock of the driver is left out, since
-- only lan9250_set_config takes it; so are log messages and statistics that only count.
pub mod Prelude
pub mod Core0
pub mod Core1
pub mod Lan9250
