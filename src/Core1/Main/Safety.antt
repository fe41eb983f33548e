-- ===== src/Core1/Main/Safety.antt =====
-- What holds of core1 in every round of its main loop.
use rp2350_zephyr_stepper.Prelude.{
  ℕ, zero, suc, ◌≡◌, ◌<◌, false, some, List, [], ◌∷◌, arith, refl, ℤ, inl, inr, Bool-cases,
  signed32,
}
use rp2350_zephyr_stepper.Core1.Float.{Fpu, is_nan, flt, fle}
use rp2350_zephyr_stepper.Core1.Protocol.{
  cmd_speed, cmd_accel, cmd_decel, cmd_move, cmd_stop, cmd_status,
}
use rp2350_zephyr_stepper.Core1.Board.{
  idle, moving, is_moving, Motion, Board, fifo_read_blocking, fifo_write_blocking, Cmd,
}
use rp2350_zephyr_stepper.Core1.Motion.{
  min_speed_hz, def_accel, def_decel, initial_motion, next_speed, pio_push_step, feed_step,
  feed_loop, feed, motion_start,
}
use rp2350_zephyr_stepper.Core1.Motion.Speed.{IsIeee, next_speed-IsSpeed}
use rp2350_zephyr_stepper.Core1.Commands.{
  handle_speed, handle_accel, handle_decel, handle_move, handle_stop, handle_status, dispatch,
  handle_command,
}
use rp2350_zephyr_stepper.Core1.Commands.Ranges.{
  IsSpeed, IsRate, accepted_speed-IsSpeed, accepted_rate-IsRate,
}
use rp2350_zephyr_stepper.Core1.Main.{Step, deliver, round, Reach, here, next}

-- The settings are in range. The motor either stands still or runs at a speed in range.
pub record IsSafe (m : Motion) : Type 0 where
  pub max_ok : IsSpeed m.max_speed
  pub accel_ok : IsRate m.accel
  pub decel_ok : IsRate m.decel
  pub idle_still : m.state ≡ idle → m.speed ≡ 0
  pub moving_ok : m.state ≡ moving → IsSpeed m.speed

-- The word that follows a setting opcode is no NaN.
abbrev pub Numeric : List ℕ → Type 0
Numeric [] = Unit
Numeric (op ∷ []) = Unit
Numeric (op ∷ v ∷ rest) = op < cmd_move → is_nan v ≡ false

default-IsRate : IsRate def_accel
unfolding flt fle
default-IsRate = (refl, refl)

floor-IsSpeed : IsSpeed min_speed_hz
unfolding fle
floor-IsSpeed = (refl, refl)

pub initial_motion-IsSafe : IsSafe initial_motion
unfolding flt fle
initial_motion-IsSafe = record {
  max_ok = (refl, refl);
  accel_ok = (refl, refl);
  decel_ok = (refl, refl);
  idle_still = λ h. refl;
  moving_ok = λ h. cc;
}

motion_start-IsSafe : (z : ℤ) (b : Board) → IsSafe b.m → IsSafe (motion_start z b).m
unfolding motion_start
motion_start-IsSafe z b s = ground (arith, floor-IsSpeed)

-- A word that is taken off the FIFO, by cases on what is there.
abbrev Keeps : Cmd (Unit {0}) → ℕ → Type 0
Keeps c op =
    (words : List ℕ) (b b' : Board)
    → b.rx ≡ words
    → Numeric (op ∷ words)
    → c b ≡ some (tt, b')
    → IsSafe b.m
    → IsSafe b'.m

handle_speed-IsSafe : Keeps handle_speed cmd_speed
unfolding handle_speed fifo_read_blocking fifo_write_blocking
handle_speed-IsSafe [] b b' e n h s = ground arith
handle_speed-IsSafe (v ∷ rest) b b' e n h s =
    ground (arith, accepted_speed-IsSpeed v (n (omega arith)))

handle_accel-IsSafe : Keeps handle_accel cmd_accel
unfolding handle_accel fifo_read_blocking fifo_write_blocking
handle_accel-IsSafe [] b b' e n h s = ground arith
handle_accel-IsSafe (v ∷ rest) b b' e n h s =
    ground (arith, accepted_rate-IsRate def_accel v default-IsRate (n (omega arith)))

handle_decel-IsSafe : Keeps handle_decel cmd_decel
unfolding handle_decel fifo_read_blocking fifo_write_blocking
handle_decel-IsSafe [] b b' e n h s = ground arith
handle_decel-IsSafe (v ∷ rest) b b' e n h s =
    ground (arith, accepted_rate-IsRate def_decel v default-IsRate (n (omega arith)))

handle_move-IsSafe : Keeps handle_move cmd_move
unfolding handle_move fifo_read_blocking fifo_write_blocking
handle_move-IsSafe [] b b' e n h s = ground arith
handle_move-IsSafe (w ∷ rest) b b' e n h s =
    ground (arith, motion_start-IsSafe (signed32 w) (record b { rx = rest }) s)

handle_stop-IsSafe : Keeps handle_stop cmd_stop
unfolding handle_stop fifo_write_blocking
handle_stop-IsSafe words b b' e n h s = ground arith

handle_status-IsSafe : Keeps handle_status cmd_status
unfolding handle_status fifo_read_blocking fifo_write_blocking
handle_status-IsSafe [] b b' e n h s = ground arith
handle_status-IsSafe (f ∷ rest) b b' e n h s = ground arith

-- A handler that comes to its end keeps the settings and the speed in range.
dispatch-IsSafe : (op : ℕ) → Keeps (dispatch op) op
unfolding dispatch
dispatch-IsSafe op words b b' e n h s = ground (
  arith,
  handle_speed-IsSafe words b b' e,
  handle_accel-IsSafe words b b' e,
  handle_decel-IsSafe words b b' e,
  handle_move-IsSafe words b b' e,
  handle_stop-IsSafe words b b' e,
  handle_status-IsSafe words b b' e,
)

handle_command-IsSafe :
    (words : List ℕ) (b b' : Board)
    → b.rx ≡ words
    → Numeric words
    → handle_command b ≡ some (tt, b')
    → IsSafe b.m
    → IsSafe b'.m
unfolding handle_command
handle_command-IsSafe [] b b' e n h s = ground arith
handle_command-IsSafe (op ∷ words) b b' e n h s =
    dispatch-IsSafe op words (record b { rx = words }) b' refl n (ground arith) s

module _ {fpu : Fpu} (ieee : IsIeee fpu) where
  feed_step-IsSafe : (b : Board) → IsSafe b.m → IsSafe (feed_step fpu b).1.m
  unfolding feed_step pio_push_step
  feed_step-IsSafe b s = elim (Bool-cases (is_moving b.m.state)) [
    | inl up ↦
        let t : IsSpeed (next_speed fpu b.m) = next_speed-IsSpeed ieee (record {
          max_ok = s.max_ok;
          accel_ok = s.accel_ok;
          decel_ok = s.decel_ok;
          speed_ok = s.moving_ok (ground arith);
        }) in
        ground (arith, t)
    | inr still ↦ ground arith
  ]

  feed_loop-IsSafe : (room : ℕ) (b : Board) → IsSafe b.m → IsSafe (feed_loop fpu room b).m
  unfolding feed_loop
  feed_loop-IsSafe zero b s = s
  feed_loop-IsSafe (suc room) b s =
      ground (arith, feed_step-IsSafe b s, feed_loop-IsSafe room (feed_step fpu b).1)

  feed-IsSafe : (room : ℕ) (b : Board) → IsSafe b.m → IsSafe (feed fpu room b).m
  unfolding feed
  feed-IsSafe room b s = ground (arith, feed_loop-IsSafe room b s)

  feed_step-rx : (b : Board) → (feed_step fpu b).1.rx ≡ b.rx
  unfolding feed_step pio_push_step
  feed_step-rx b = ground arith

  feed_loop-rx : (room : ℕ) (b : Board) → (feed_loop fpu room b).rx ≡ b.rx
  unfolding feed_loop
  feed_loop-rx zero b = refl
  feed_loop-rx (suc room) b = ground (arith, feed_step-rx b, feed_loop-rx room (feed_step fpu b).1)

  feed-rx : (room : ℕ) (b : Board) → (feed fpu room b).rx ≡ b.rx
  unfolding feed
  feed-rx room b = ground (arith, feed_loop-rx room b)

  Step-IsSafe : {b b' : Board} → Step fpu b b' → Numeric b.rx → IsSafe b.m → IsSafe b'.m
  Step-IsSafe (deliver b w) n s = s
  Step-IsSafe (round room b b' h) n s =
      handle_command-IsSafe b.rx (feed fpu room b) b' (feed-rx room b) n h (feed-IsSafe room b s)

  -- If the FPU has the laws of IEEE-754 that IsIeee names, and core0 sends no NaN as a setting,
  -- then every state that the main loop reaches from a safe one is safe: the speed limit lies
  -- between 50 and 160000 steps/s, the rates are positive and at most 2666666 steps/s^2, and the
  -- speed is 0 when idle and between 50 and 160000 steps/s during a move.
  pub Reach-IsSafe : {b b' : Board} → Reach fpu (λ t. Numeric t.rx) b b' → IsSafe b.m → IsSafe b'.m
  Reach-IsSafe here s = s
  Reach-IsSafe (next r n st) s = Step-IsSafe st n (Reach-IsSafe r s)
