-- ===== src/Core0/Launch.antt =====
-- `core1_launch` (src/core1_launch.c): core1 is held in reset and released, and the handshake with
-- its boot ROM over the SIO FIFO tells it where to start. The chip, with the ROM on the other core,
-- is the parameter `Chip` over an environment that no code here looks into; a poll of a status
-- register is a call, after which the environment may be another one.
pub mod Handshake
pub mod Image
use rp2350_zephyr_stepper.Prelude.{
  ℕ, zero, suc, Bool, true, false, Option, none, some, List, [], ◌∷◌, ◌==◌, if◌then◌else◌, length,
  drop, get_or, ltb, ◌+◌, ◌++◌,
}

-- The reads of FIFO_ST for `SIO_FIFO_ST_VLD_BITS` and `SIO_FIFO_ST_RDY_BITS`, and of FRCE_OFF for
-- `PSM_FRCE_OFF_PROC1_BITS`, with the writes through its set and clear aliases.
pub record Chip (E : Type 0) : Type 0 where
  pub fifo_vld : E → Bool × E
  pub fifo_rdy : E → Bool × E
  pub fifo_rd : E → ℕ × E
  pub fifo_wr : ℕ → E → E
  pub sev : E → E
  pub set_proc1_off : E → E
  pub clear_proc1_off : E → E
  pub proc1_is_off : E → Bool × E

-- The RAM of core1, the words written to the FIFO by the handshake, and the words that it took as
-- responses, both newest first.
pub record Launch (E : Type 0) : Type 0 where
  pub env : E
  pub ram : List ℕ
  pub written : List ℕ
  pub responses : List ℕ

-- `none` is a polling loop that has not ended within its fuel.
abbrev pub Boot : Type 0 → Type 0 → Type 0
Boot E A = Launch E → Option (A × Launch E)

module _ {E A B : Type 0} where
  abbrev pub and_then : Option (A × Launch E) → (A → Boot E B) → Option (B × Launch E)
  and_then none k = none
  and_then (some (a, s)) k = k a s

  infixl 5 ◌>>=◌ ◌>>◌
  abbrev pub ◌>>=◌ : Boot E A → (A → Boot E B) → Boot E B
  m >>= k = λ s. and_then (m s) k

  abbrev pub ◌>>◌ : Boot E A → Boot E B → Boot E B
  m >> n = m >>= λ _. n

-- CORE1_RAM_BASE
abbrev pub core1_ram_base : ℕ
core1_ram_base = 0x2006_2000

abbrev pub cmd_sequence : ℕ → ℕ → ℕ → List ℕ
cmd_sequence vector_table sp entry = 0 ∷ 0 ∷ 1 ∷ vector_table ∷ sp ∷ entry ∷ []

module _ {E : Type 0} where
  abbrev pub touch : (E → E) → Boot E (Unit {0})
  touch f s = some (tt, record s { env = f s.env })

  abbrev pub poll_status : (E → Bool × E) → Boot E Bool
  poll_status f s = some ((f s.env).0, record s { env = (f s.env).1 })

  -- `memcpy(CORE1_RAM_BASE, core1_blob, core1_blob_size)`, in words.
  unfoldable pub copy_blob : List ℕ → Boot E (Unit {0})
  copy_blob blob s = some (tt, record s { ram = blob ++ drop (length blob) s.ram })

  -- A loop that has ended, and left the chip in this state.
  unfoldable pub ended : Option E → Boot E (Unit {0})
  ended none s = none
  ended (some e) s = some (tt, record s { env = e })

  -- `while (!(...)) {}`
  unfoldable pub until : ℕ → (E → Bool × E) → E → Option E
  until zero test e = none
  until (suc n) test e =
      let (hit, e') = test e in elim hit [ true ↦ some e' | false ↦ until n test e' ]

  unfoldable pub wait_until : ℕ → (E → Bool × E) → Boot E (Unit {0})
  unfolding ended until
  wait_until n test s = ended (until n test s.env) s

module _ {E : Type 0} (chip : Chip E) where
  -- A read of the FIFO whose word is thrown away.
  unfoldable pub skip_word : Boot E (Unit {0})
  skip_word s = some (tt, record s { env = (chip.fifo_rd s.env).1 })

  unfoldable pub read_response : Boot E ℕ
  read_response s =
      let (resp, e) = chip.fifo_rd s.env in
      some (resp, record s { env = e; responses = resp ∷ s.responses })

  unfoldable pub write_word : ℕ → Boot E (Unit {0})
  write_word cmd s = some (tt, record s { env = chip.fifo_wr cmd s.env; written = cmd ∷ s.written })

  -- `while (sio_hw->fifo_st & SIO_FIFO_ST_VLD_BITS) (void)sio_hw->fifo_rd;`
  unfoldable pub drained_fifo : ℕ → E → Option E
  drained_fifo zero e = none
  drained_fifo (suc n) e =
      let (more, e') = chip.fifo_vld e in
      elim more [ true ↦ drained_fifo n (chip.fifo_rd e').1 | false ↦ some e' ]

  unfoldable pub drain : ℕ → Boot E (Unit {0})
  unfolding ended drained_fifo
  drain n s = ended (drained_fifo n s.env) s

  -- The fuel of each polling loop.
  module _ (fuel : ℕ) where
    unfoldable pub core1_reset : Boot E (Unit {0})
    unfolding wait_until skip_word
    core1_reset = do
      touch chip.set_proc1_off
      wait_until fuel chip.proc1_is_off
      touch chip.clear_proc1_off
      wait_until fuel chip.fifo_vld
      skip_word

    -- What comes before a 0 of the sequence.
    unfoldable pub drain_and_wake : ℕ → Boot E (Unit {0})
    unfolding drain
    drain_and_wake cmd = if cmd == 0 then drain fuel >> touch chip.sev else λ s. some (tt, s)

    -- The body of the loop, up to the response.
    unfoldable pub exchange : ℕ → Boot E ℕ
    unfolding drain_and_wake wait_until write_word read_response
    exchange cmd = do
      drain_and_wake cmd
      wait_until fuel chip.fifo_rdy
      write_word cmd
      touch chip.sev
      wait_until fuel chip.fifo_vld
      read_response

    -- `while (seq < ARRAY_SIZE(cmd_sequence))`
    unfoldable pub handshake : ℕ → List ℕ → ℕ → Boot E (Unit {0})
    unfolding exchange
    handshake zero sequence seq = λ s. none
    handshake (suc rounds) sequence seq =
        if ltb seq (length sequence)
        then (exchange (get_or sequence seq 0) >>= λ resp.
            handshake rounds sequence (if get_or sequence seq 0 == resp then suc seq else 0))
        else λ s. some (tt, s)

    unfoldable pub core1_launch : ℕ → List ℕ → Boot E (Unit {0})
    unfolding copy_blob core1_reset handshake
    core1_launch rounds blob = do
      copy_blob blob
      ram ← λ s. some (s.ram, s)
      core1_reset
      handshake rounds (cmd_sequence core1_ram_base (get_or ram 0 0) (get_or ram 1 0)) 0
