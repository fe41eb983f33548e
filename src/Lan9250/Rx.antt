-- ===== src/Lan9250/Rx.antt =====
-- `lan9250_rx` and `lan9250_tx` (drivers/eth_lan9250/eth_lan9250.c).
pub mod Drain
pub mod Fifo
pub mod Settles
pub mod Total
pub mod Wire
pub mod Content
pub mod Delivers
use rp2350_zephyr_stepper.Prelude.{
  ℕ, zero, suc, ◌+◌, ◌-◌, ◌*◌, ◌/◌, ◌%◌, ◌^◌, Bool, ◌||◌, Option, none, some, List, ◌∷◌, ◌++◌, take,
  drop, ltb, ◌==◌, if◌then◌else◌, bit_and, bit_or, min,
}
use rp2350_zephyr_stepper.Lan9250.World.{
  Hw, Io, ok, err, pure, blocked, ◌>>=◌, ◌>>◌, attempt, locked, emit, get_ctx, put_ctx, rx_done,
  pkt_unref, rx_error, eio,
}
use rp2350_zephyr_stepper.Lan9250.Regs.{
  spi_instr_write, spi_instr_read, rx_fifo_inf, rx_status_fifo, rx_sts_packet_len, rx_data_fifo,
  tx_data_fifo, tx_fifo_inf, tx_fifo_inf_txsused, tx_status_fifo, tx_cmd_a_int_on_comp,
  tx_cmd_a_buffer_align_4b, tx_cmd_a_start_offset_0b, tx_cmd_a_first_seg, tx_cmd_a_last_seg,
  tx_cmd_b_packet_tag,
}
use rp2350_zephyr_stepper.Lan9250.Bus.{
  put_be16, spi_write_dt, spi_transceive_dt, uptime_get, write_sys_reg, read_sys_reg,
}
use rp2350_zephyr_stepper.Lan9250.Timestamps.{rx_pending_expire, rx_timestamp_check}
use rp2350_zephyr_stepper.Lan9250.TxTimestamps.{tx_timestamp_check}

-- `NET_ETH_MAX_FRAME_SIZE`: a full frame without its check sum.
abbrev pub max_frame_size : ℕ
max_frame_size = 1514

-- `LAN9250_ALIGN`.
unfoldable pub align : ℕ → ℕ
align v = (v + 3) / 4 * 4

-- The bytes that pad the last transfer of a frame to a word boundary.
unfoldable pub end_pad : ℕ → ℕ
end_pad frame_len = (4 - frame_len % 4) % 4

module _ {E : Type 0} (hw : Hw E) where
  unfoldable pub read_buf : ℕ → Io E (List ℕ)
  read_buf buf_len = spi_transceive_dt hw (spi_instr_read ∷ put_be16 rx_data_fifo) buf_len

  unfoldable pub write_buf : List ℕ → Io E (Unit {0})
  unfolding spi_write_dt
  write_buf bytes w =
      let frame = spi_instr_write ∷ (put_be16 tx_data_fifo ++ bytes) in spi_write_dt hw frame w

  -- `if (ret < 0) { break; }`
  abbrev pub unless_failed : Option (List ℕ) → Io E (Unit {0}) → Io E (Unit {0})
  unless_failed none rest = pure tt
  unless_failed (some _) rest = rest

  -- The rest of a dropped frame, in transfers of at most `size` bytes; an error ends the loop. The
  -- first argument is fuel: the loop takes at most one round for each byte.
  unfoldable pub discard : ℕ → ℕ → ℕ → Io E (Unit {0})
  discard zero size pkt_len = blocked
  discard (suc fuel) size pkt_len = if pkt_len == 0 then pure tt else do
    r ← attempt (read_buf (min pkt_len size))
    unless_failed r (discard fuel size (pkt_len - min pkt_len size))

  unfoldable pub pkt_append : ℕ → List ℕ → Io E (Unit {0})
  pkt_append pkt bytes w = (ok tt, record w { env = hw.pkt_append pkt bytes w.env })

  -- The frame's bytes go to the packet, in transfers of at most `size` bytes; at least one is made.
  unfoldable pub receive : ℕ → ℕ → ℕ → ℕ → Io E (Unit {0})
  receive zero size pkt pkt_len = blocked
  receive (suc fuel) size pkt pkt_len = do
    bytes ← read_buf (min pkt_len size)
    pkt_append pkt bytes
    if pkt_len - min pkt_len size == 0
        then pure tt
        else receive fuel size pkt (pkt_len - min pkt_len size)

  unfoldable pub read_pad : ℕ → Io E (Unit {0})
  read_pad n = if n == 0 then pure tt else read_buf n >>= λ _. pure tt

  unfoldable pub rx_alloc : ℕ → Io E (Option ℕ)
  rx_alloc n w = let (p, env) = hw.rx_alloc n w.env in (ok p, record w { env = env })

  unfoldable pub recv_data : ℕ → Io E Bool
  recv_data pkt w = let (r, env) = hw.recv_data pkt w.env in (ok r, record w { env = env })

  unfoldable pub sem_give : Io E (Unit {0})
  sem_give = do c ← get_ctx; put_ctx (record c { tx_rx_sem = c.tx_rx_sem + 1 })

  -- With the count at 0 the caller waits until lan9250_rx gives the semaphore in its thread; what
  -- is then done is not modelled, and the run ends here as `hang`.
  unfoldable pub sem_take : Io E (Unit {0})
  sem_take = do
    c ← get_ctx
    if c.tx_rx_sem == 0 then blocked else put_ctx (record c { tx_rx_sem = c.tx_rx_sem - 1 })

  -- No packet could be had: old entries are swept, and the frame is read out and dropped.
  unfoldable pub drop_frame : ℕ → Io E (Unit {0})
  drop_frame pkt_len = do
    emit rx_error
    now ← uptime_get hw
    locked (rx_pending_expire now)
    discard (pkt_len + 1) hw.buf_data_size pkt_len
    _ ← attempt (read_pad (end_pad pkt_len))
    pure tt

  unfoldable pub deliver : ℕ → ℕ → Io E (Unit {0})
  deliver pkt pkt_len = do
    receive (pkt_len + 1) hw.buf_data_size pkt pkt_len
    read_pad (end_pad pkt_len)
    rx_timestamp_check hw pkt pkt_len
    done ← recv_data pkt
    emit (if done then rx_done pkt else pkt_unref pkt)
    sem_give

  -- With a packet or without one.
  unfoldable pub allocated : ℕ → Option ℕ → Io E (Unit {0})
  allocated pkt_len none = drop_frame pkt_len
  allocated pkt_len (some pkt) = deliver pkt pkt_len

  unfoldable pub rx : Io E (Unit {0})
  rx = do
    inf ← read_sys_reg hw rx_fifo_inf
    sts ← read_sys_reg hw rx_status_fifo
    let pktcnt = bit_and inf 0x00ff_0000 / 2 ^ 16
    let pkt_len = bit_and sts rx_sts_packet_len / 2 ^ 16
    if pktcnt == 0 || pkt_len == 0 then pure tt else do
      _ ← read_sys_reg hw rx_data_fifo
      (if ltb max_frame_size pkt_len then emit rx_error else pure tt)
      pkt ← rx_alloc pkt_len
      allocated pkt_len pkt

  -- The status words of earlier frames.
  unfoldable pub drain_status : ℕ → Io E (Unit {0})
  drain_status zero = pure tt
  drain_status (suc n) = do _ ← read_sys_reg hw tx_status_fifo; drain_status n

  -- `net_pkt_read` into `ctx->buf`.
  unfoldable pub fill_buf : ℕ → ℕ → Io E (Unit {0})
  fill_buf pkt len w = elim (hw.pkt_read pkt len w.env) [
    | ok bytes ↦ (ok tt, record w { ctx = record w.ctx { buf = bytes ++ drop len w.ctx.buf } })
    | _ ↦ (err eio, w)
  ]

  unfoldable pub tx_commands : ℕ → Io E (Unit {0})
  tx_commands len = do
    write_sys_reg hw tx_data_fifo (
        bit_or
          (bit_or
            (bit_or
              (bit_or (bit_or tx_cmd_a_int_on_comp tx_cmd_a_buffer_align_4b)
                tx_cmd_a_start_offset_0b)
              tx_cmd_a_first_seg)
            tx_cmd_a_last_seg)
          len)
    write_sys_reg hw tx_data_fifo (bit_or tx_cmd_b_packet_tag len)

  -- The frame's bytes, rounded up to whole words with what stands behind them in `ctx->buf`.
  unfoldable pub send_frame : ℕ → ℕ → Io E (Unit {0})
  send_frame pkt len = do fill_buf pkt len; c ← get_ctx; write_buf (take (align len) c.buf)

  -- What the transfer reads behind `buf`, up to two bytes for the longest frames, is left out, and so
  -- is a frame longer than `buf`, which the network stack does not send.
  unfoldable pub tx : ℕ → Io E (Unit {0})
  tx pkt w0 =
      let len = hw.pkt_len pkt w0.env in
      let run : Io E (Unit {0}) = (do
        regval ← read_sys_reg hw tx_fifo_inf
        let status_size = bit_and regval tx_fifo_inf_txsused / 2 ^ 16
        sem_take
        tx_commands len
        send_frame pkt len
        drain_status status_size
        c ← get_ctx
        tx_timestamp_check hw pkt c.buf len
        sem_give) in
      run w0
