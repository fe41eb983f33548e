-- ===== src/Core1/Board.antt =====
-- What the code of core1 reads and writes: its static motion state, the words that core0 has put
-- into the SIO FIFO, and the register writes, newest first.
use rp2350_zephyr_stepper.Prelude.{ℕ, Bool, true, false, Option, none, some, List, [], ◌∷◌, ◌++◌, ℤ}

pub data MotionState : Type 0 where
  idle moving : MotionState

-- The test `M.state == MOVING`.
abbrev pub is_moving : MotionState → Bool
is_moving moving = true
is_moving idle = false

-- The static `M`. Speeds and rates are float patterns, `remaining` is the `int32_t`.
pub record Motion : Type 0 where
  pub state : MotionState
  pub max_speed : ℕ
  pub accel : ℕ
  pub decel : ℕ
  pub speed : ℕ
  pub remaining : ℤ
  pub stop_req : Bool

-- The registers that core1 writes; the argument is the pin or the index.
pub data Reg : Type 0 where
  pads_iso_clr io_ctrl pio_instr_mem : ℕ → Reg
  sio_oe_set sio_out_set sio_out_clr resets_clr : Reg
  pio_execctrl pio_pinctrl pio_instr pio_ctrl pio_txf0 fifo_wr : Reg

-- A register write, or a call of `delay_us`.
pub data Act : Type 0 where
  wr : Reg → ℕ → Act
  delay : ℕ → Act

pub record Board : Type 0 where
  pub m : Motion
  pub rx : List ℕ
  pub acts : List Act

-- `none` means that the code waits for a word that core0 has not sent.
abbrev pub Cmd : Type 0 → Type 0
Cmd A = Board → Option (A × Board)

abbrev pub pure : {A : Type 0} → A → Cmd A
pure a b = some (a, b)

infixl 5 ◌>>=◌ ◌>>◌
abbrev pub ◌>>=◌ : {A B : Type 0} → Cmd A → (A → Cmd B) → Cmd B
◌>>=◌ c f b = elim (c b) [ none ↦ none | some (a, b') ↦ f a b' ]

abbrev pub ◌>>◌ : {B : Type 0} → Cmd (Unit {0}) → Cmd B → Cmd B
c >> k = c >>= λ _. k

-- `REG(r) = v`.
abbrev pub write_reg : Reg → ℕ → Board → Board
write_reg r v b = record b { acts = wr r v ∷ b.acts }

abbrev pub set_motion : Motion → Cmd (Unit {0})
set_motion m b = some (tt, record b { m = m })

-- A word comes off the FIFO; with none there the code spins on `SIO_FIFO_ST_VLD_BITS`.
unfoldable pub fifo_read_blocking : Cmd ℕ
fifo_read_blocking b = elim b.rx [ [] ↦ none | w ∷ ws ↦ some (w, record b { rx = ws }) ]

-- The reply word, once core0 has left room for it.
unfoldable pub fifo_write_blocking : ℕ → Cmd (Unit {0})
fifo_write_blocking word b = some (tt, write_reg fifo_wr word b)

-- The step words that went to the PIO, and the replies to core0, newest first.
abbrev pub pushed_of : Act → List ℕ
pushed_of (wr pio_txf0 v) = v ∷ []
pushed_of (wr _ _) = []
pushed_of (delay _) = []

abbrev pub reply_of : Act → List ℕ
reply_of (wr fifo_wr v) = v ∷ []
reply_of (wr _ _) = []
reply_of (delay _) = []

abbrev pub pushed : List Act → List ℕ
pushed [] = []
pushed (a ∷ rest) = pushed_of a ++ pushed rest

abbrev pub replies : List Act → List ℕ
replies [] = []
replies (a ∷ rest) = reply_of a ++ replies rest
