-- ===== src/Lan9250/BoardTests.antt =====
-- The theorems on the data FIFOs at concrete inputs, with a board whose FIFO is a list.
use rp2350_zephyr_stepper.Prelude.{
  ℕ, ◌+◌, ◌≤◌, ◌<◌, ◌≡◌, ◌≢◌, ◌∙◌, ap, ◌^◌, true, false, Option, none, some, List, [], ◌∷◌, ◌++◌,
  arith, refl, replicate, take, drop, ◌==◌, if◌then◌else◌, Bool-cases, inl, inr, get_or,
}
use rp2350_zephyr_stepper.Lan9250.World.{World, Hw, Ret, ok, err, hang, initial_context}
use rp2350_zephyr_stepper.Lan9250.Yields.{Yields}
use rp2350_zephyr_stepper.Lan9250.Regs.{rx_data_fifo}
use rp2350_zephyr_stepper.Lan9250.Bus.{put_le32}
use rp2350_zephyr_stepper.Lan9250.Bus.Frames.{Access, fetch, store, decode, read_frame, decode-read}
use rp2350_zephyr_stepper.Lan9250.Rx.{align, end_pad, send_frame, rx, tx}
use rp2350_zephyr_stepper.Lan9250.Rx.Fifo.{IsFifo}
use rp2350_zephyr_stepper.Lan9250.Rx.Settles.{Settled, tx-Settled}
use rp2350_zephyr_stepper.Lan9250.Rx.Wire.{payload, send_frame-rx}
use rp2350_zephyr_stepper.Lan9250.Rx.Content.{IsReceiver}
use rp2350_zephyr_stepper.Lan9250.Rx.Delivers.{Handed, rx-Yields}
use rp2350_zephyr_stepper.Lan9250.Bus.Total.{IsKernel}
use rp2350_zephyr_stepper.Lan9250.Tests.{toy-IsKernel, ok≢hang, Toy, toy, world}

-- The RX data FIFO of a board, the one packet that it receives, and its clock in milliseconds.
record Board : Type 0 where
  queue : List ℕ
  packet : List ℕ
  ms : ℕ

-- Every other register reads as one waiting frame of five bytes.
abbrev answered : Option Access → ℕ → Board → Ret (List ℕ) × Board
answered (some (fetch a)) n b =
    if a == rx_data_fifo
    then (ok (take n b.queue), record b { queue = drop n b.queue })
    else (ok (put_le32 0x0005_0000), b)
answered _ n b = (err 5, b)

abbrev board : Hw Board
board = record {
  spi_write = λ bytes b. (ok tt, b);
  spi_read = λ bytes n b. answered (decode bytes) n b;
  uptime = λ b. b.ms;
  wait_ms = λ n b. record b { ms = b.ms + n };
  rx_alloc = λ n b. (some 1, b);
  pkt_append = λ p bytes b. record b { packet = b.packet ++ bytes };
  pkt_read = λ p n b. err 5;
  pkt_len = λ p b. 0;
  recv_data = λ p b. (true, b);
  device_id = λ b. err 5;
  timestamp_thread = false;
  promiscuous_mode = false;
  buf_data_size = 2;
}

abbrev queue_of : Board → List ℕ
queue_of b = b.queue

abbrev packet_of : Board → List ℕ
packet_of b = b.packet

answered-returns : (access : Option Access) (n : ℕ) (b : Board) → (answered access n b).0 ≢ hang
answered-returns none n b e = cc
answered-returns (some (store a v)) n b e = cc
answered-returns (some (fetch a)) n b e = elim (Bool-cases (a == rx_data_fifo)) [
  | inl at_fifo ↦ ok≢hang (take n b.queue) (rw at_fifo at e)
  | inr elsewhere ↦ ok≢hang (put_le32 0x0005_0000) (rw elsewhere at e)
]

answered-time : (access : Option Access) (n : ℕ) (b : Board) → (answered access n b).1.ms ≡ b.ms
answered-time none n b = refl
answered-time (some (store a v)) n b = refl
answered-time (some (fetch a)) n b = elim (Bool-cases (a == rx_data_fifo)) [
  | inl at_fifo ↦ rw at_fifo refl
  | inr elsewhere ↦ rw elsewhere refl
]

board-IsKernel : IsKernel board
board-IsKernel = record {
  write_returns = λ bytes b. ok≢hang tt;
  read_returns = λ bytes n b. answered-returns (decode bytes) n b;
  write_time = λ bytes b. omega arith;
  read_time = λ bytes n b. omega (arith, answered-time (decode bytes) n b);
  wait_time = λ n b. omega arith;
}

board-IsFifo : IsFifo board 1 queue_of packet_of
unfolding decode
board-IsFifo = record {
  reads = λ n b. refl;
  reads_fifo = λ n b. refl;
  reads_packet = λ n b. refl;
  append_fifo = λ bytes b. refl;
  append_packet = λ bytes b. refl;
}

other_read :
    (a : ℕ) (b : Board)
    → 0 < a
    → a < 2 ^ 16
    → answered (decode (read_frame a)) 4 b ≡ (ok (put_le32 0x0005_0000), b)
other_read a b h l =
    let other : (a == rx_data_fifo) ≡ false = ground arith in
    ap (λ access. answered access 4 b) (decode-read a l) ∙ rw other refl

-- One frame of five bytes waits.
abbrev one_length : Board → List ℕ
one_length b = 5 ∷ []

board-IsReceiver : IsReceiver board 1 queue_of packet_of one_length 5
unfolding decode
board-IsReceiver = record {
  port = board-IsFifo;
  writes_keep = λ bytes b. (refl, refl);
  reads_keep = λ a b h l.
      (ap (λ r. r.1.queue) (other_read a b h l), ap (λ r. r.1.packet) (other_read a b h l));
  counts = λ m ms b h. (put_le32 0x0005_0000, refl, refl, h);
  measures = λ m ms b h. (put_le32 0x0005_0000, refl, ap (λ l. get_or l 0 0) h);
  allocates = λ b. refl;
  alloc_keeps = λ b. (refl, refl);
  recv_keeps = λ b. (refl, refl);
}

abbrev five : List ℕ
five = 1 ∷ 2 ∷ 3 ∷ 4 ∷ 5 ∷ []

-- The start-of-packet offset.
abbrev gap : List ℕ
gap = replicate 4 0

abbrev holding : List ℕ → World Board
holding bytes = record {
  env = record { queue = bytes; packet = []; ms = 0 };
  ctx = initial_context;
  trace = [];
}

pad-of-five : 3 ≡ end_pad 5
unfolding end_pad
pad-of-five = refl

rx-Yields_example :
    Yields
      (λ _ w'. (w'.env.queue ≡ 9 ∷ []) × (w'.env.packet ≡ [] ++ five) × Handed 1 w'.trace)
      (rx board (holding (gap ++ (five ++ (replicate 3 7 ++ (9 ∷ []))))))
rx-Yields_example =
    rx-Yields board board-IsKernel 1 queue_of packet_of one_length 5 board-IsReceiver (omega arith)
      five (replicate 3 7) (9 ∷ []) refl pad-of-five gap []
      (holding (gap ++ (five ++ (replicate 3 7 ++ (9 ∷ []))))) (omega arith) refl refl refl

abbrev sender : Hw Toy
sender = record toy { pkt_read = λ p n e. ok five }

five-fits : align 5 ≤ 1514
unfolding align
five-fits = omega arith

send_frame-rx_example :
    Yields
      (λ _ w'. (w'.env.queue ≡ 9 ∷ []) × (w'.env.packet ≡ [] ++ five) × Handed 1 w'.trace)
      (rx board (holding (gap ++ (payload (send_frame sender 7 5 world).1.trace ++ (9 ∷ [])))))
send_frame-rx_example =
    send_frame-rx sender board board-IsKernel 1 queue_of packet_of one_length five board-IsReceiver
      7 gap (9 ∷ []) [] world
      (holding (gap ++ (payload (send_frame sender 7 5 world).1.trace ++ (9 ∷ [])))) (omega arith)
      (omega arith) refl five-fits refl refl refl

abbrev talker : Hw Toy
talker = record sender { pkt_len = λ p e. 5 }

talker-IsKernel : IsKernel talker
talker-IsKernel = record {
  write_returns = λ bytes e. toy-IsKernel.write_returns bytes e;
  read_returns = λ bytes n e. toy-IsKernel.read_returns bytes n e;
  write_time = λ bytes e. toy-IsKernel.write_time bytes e;
  read_time = λ bytes n e. toy-IsKernel.read_time bytes n e;
  wait_time = λ n e. toy-IsKernel.wait_time n e;
}

tx-Settled_example : Settled 0 (tx talker 7 world)
tx-Settled_example = tx-Settled talker talker-IsKernel 7 0 world refl
