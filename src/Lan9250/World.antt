-- ===== src/Lan9250/World.antt =====
-- The state of the LAN9250 driver and what it asks of the world around it.
-- The SPI controller, the kernel's clock and the packet pool of Zephyr, and the chip behind them,
-- are a parameter `Hw E` over an environment `E` that no code here looks into. A call of them
-- returns a result and the next environment. The driver's own state is the record `Context`
-- (`struct lan9250_runtime` with the static counters), and `trace` lists, newest first, the SPI
-- transfers and the packet calls that were made.
use rp2350_zephyr_stepper.Prelude.{ℕ, Bool, Option, none, some, List, ◌∷◌, replicate}

-- `err e` is the return value `-e`; `hang` is a loop that has not ended within its fuel, or a
-- semaphore that is never given.
pub data Ret (A : Type 0) : Type 0 where
  ok : A → Ret A
  err : ℕ → Ret A
  hang : Ret A

abbrev pub enodev : ℕ
enodev = 19

abbrev pub eio : ℕ
eio = 5

abbrev pub erange : ℕ
erange = 34

abbrev pub ealready : ℕ
ealready = 120

abbrev pub enotsup : ℕ
enotsup = 134

-- A slot of `rx_pending` in use: a packet that waits for its timestamp.
pub record Pending : Type 0 where
  pub pkt : ℕ
  pub msg_type : ℕ
  pub seq_id : ℕ
  pub deadline : ℕ

-- A slot of `rx_unclaimed` in use: a timestamp that waits for its packet.
pub record Unclaimed : Type 0 where
  pub msg_type : ℕ
  pub seq_id : ℕ
  pub sec : ℕ
  pub ns : ℕ
  pub deadline : ℕ

-- The static counters `diag_*`.
pub record Diag : Type 0 where
  pub matched_immediate : ℕ
  pub matched_pending : ℕ
  pub queued_pending : ℕ
  pub expired_unmatched : ℕ
  pub last_summary_ms : ℕ

-- `bank_lock` is taken and given back by events; `hash_lock` is left out, since only
-- `lan9250_set_config` takes it.
pub record Context : Type 0 where
  pub mac_address : List ℕ
  pub tx_rx_sem : ℕ
  pub buf : List ℕ
  pub rx_pending : List (Option Pending)
  pub rx_unclaimed : List (Option Unclaimed)
  pub mcast_hash_refcount : List ℕ
  pub ptp_clock : Option ℕ
  pub diag : Diag

pub data Event : Type 0 where
  spi_out : List ℕ → Event
  spi_in : List ℕ → ℕ → Event
  pkt_ref pkt_unref rx_done : ℕ → Event
  pkt_stamp : ℕ → ℕ → ℕ → Event
  tx_stamped : ℕ → Event
  carrier : Bool → Event
  rx_error : Event
  lock_bank unlock_bank : Event

pub record World (E : Type 0) : Type 0 where
  pub env : E
  pub ctx : Context
  pub trace : List Event

-- `spi_write_dt` and `spi_transceive_dt` (bytes sent; bytes sent and the number of bytes read),
-- `k_uptime_get` in milliseconds, the waits, the packet pool, `net_pkt_read` from the start of a
-- packet, `net_pkt_get_len`, `net_recv_data`, and `hwinfo_get_device_id`. Then the build options
-- CONFIG_NET_PKT_TIMESTAMP_THREAD, CONFIG_NET_PROMISCUOUS_MODE and CONFIG_NET_BUF_DATA_SIZE.
pub record Hw (E : Type 0) : Type 0 where
  pub spi_write : List ℕ → E → Ret (Unit {0}) × E
  pub spi_read : List ℕ → ℕ → E → Ret (List ℕ) × E
  pub uptime : E → ℕ
  pub wait_ms : ℕ → E → E
  pub rx_alloc : ℕ → E → Option ℕ × E
  pub pkt_append : ℕ → List ℕ → E → E
  pub pkt_read : ℕ → ℕ → E → Ret (List ℕ)
  pub pkt_len : ℕ → E → ℕ
  pub recv_data : ℕ → E → Bool × E
  pub device_id : E → Ret (List ℕ)
  pub timestamp_thread : Bool
  pub promiscuous_mode : Bool
  pub buf_data_size : ℕ

-- A function of the driver.
abbrev pub Io : Type 0 → Type 0 → Type 0
Io E A = World E → Ret A × World E

module _ {E A : Type 0} where
  abbrev pub pure : A → Io E A
  pure a w = (ok a, w)

  -- `return -e;`
  abbrev pub fail : ℕ → Io E A
  fail e w = (err e, w)

  abbrev pub blocked : Io E A
  blocked w = (hang, w)

module _ {E A B : Type 0} where
  -- `ret = m; if (ret < 0) return ret;`
  abbrev pub and_then : Ret A × World E → (A → Io E B) → Ret B × World E
  and_then (ok a, w) k = k a w
  and_then (err e, w) k = (err e, w)
  and_then (hang, w) k = (hang, w)

  infixl 5 ◌>>=◌ ◌>>◌
  abbrev pub ◌>>=◌ : Io E A → (A → Io E B) → Io E B
  m >>= k = λ w. and_then (m w) k

  abbrev pub ◌>>◌ : Io E A → Io E B → Io E B
  m >> n = m >>= λ _. n

module _ {E A : Type 0} where
  -- A call whose error the caller looks at, or passes over: `none` is an error.
  abbrev pub caught : Ret A × World E → Ret (Option A) × World E
  caught (ok a, w) = (ok (some a), w)
  caught (err e, w) = (ok none, w)
  caught (hang, w) = (hang, w)

  abbrev pub attempt : Io E A → Io E (Option A)
  attempt m w = caught (m w)

module _ {E : Type 0} where
  abbrev pub log : Event → World E → World E
  log e w = record w { trace = e ∷ w.trace }

  abbrev pub emit : Event → Io E (Unit {0})
  emit e w = (ok tt, log e w)

  abbrev pub get_ctx : Io E Context
  get_ctx w = (ok w.ctx, w)

  abbrev pub put_ctx : Context → Io E (Unit {0})
  put_ctx c w = (ok tt, record w { ctx = c })

module _ {E A : Type 0} where
  -- `out:` with the release of the lock.
  abbrev pub unlocked : Ret A × World E → Ret A × World E
  unlocked (ok a, w) = (ok a, log unlock_bank w)
  unlocked (err e, w) = (err e, log unlock_bank w)
  unlocked (hang, w) = (hang, w)

  -- `k_mutex_lock(&context->bank_lock, K_FOREVER)` and the release on every way out.
  abbrev pub locked : Io E A → Io E A
  locked m w = unlocked (m (log lock_bank w))

abbrev pub initial_context : Context
initial_context = record {
  mac_address = replicate 6 0;
  tx_rx_sem = 1;
  buf = replicate 1514 0;
  rx_pending = replicate 16 none;
  rx_unclaimed = replicate 16 none;
  mcast_hash_refcount = replicate 64 0;
  ptp_clock = none;
  diag = record {
    matched_immediate = 0;
    matched_pending = 0;
    queued_pending = 0;
    expired_unmatched = 0;
    last_summary_ms = 0;
  };
}
