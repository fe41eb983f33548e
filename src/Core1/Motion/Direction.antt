-- ===== src/Core1/Motion/Direction.antt =====
-- The level of DIR at the steps of a move.
use rp2350_zephyr_stepper.Prelude.{
  ℕ, zero, suc, ◌+◌, ◌^◌, ◌<◌, ◌≡◌, Bool, true, false, not, ◌&&◌, ◌||◌, List, [], ◌∷◌, arith, ℤ,
  pos, negsuc, pos_part, neg_part, length, if◌then◌else◌,
}
use rp2350_zephyr_stepper.Core1.Float.{Fpu}
use rp2350_zephyr_stepper.Core1.Board.{Reg, Board, Act, wr, pushed}
use rp2350_zephyr_stepper.Core1.Pins.{pin_after}
use rp2350_zephyr_stepper.Core1.Motion.{
  pin_dir, pio_push_step, feed_step, feed_loop, feed, motion_start,
}
use rp2350_zephyr_stepper.Core1.Motion.Steps.{feeds, sum, move-IsOver}

-- A number of steps that are to be made with DIR high.
abbrev pub is_ahead : ℤ → Bool
is_ahead (pos n) = true
is_ahead (negsuc n) = false

abbrev pub forward : List Act → Bool
forward acts = (pin_after pin_dir acts).high

-- The step words that were pushed while DIR was high (`true`), or low.
abbrev pub made : Bool → List Act → ℕ
made d [] = 0
made d (wr Reg.pio_txf0 v ∷ before) =
    if d && forward before || not d && not (forward before)
    then suc (made d before)
    else made d before
made d (_ ∷ before) = made d before

-- DIR is at `d`, and since some moment every step was made with it there.
record Steady (d : Bool) (u p k : ℕ) (b : Board) : Type 0 where
  level : forward b.acts ≡ d
  along : made d b.acts + p ≡ u + length (pushed b.acts)
  against : made (not d) b.acts ≡ k

module _ (fpu : Fpu) (d : Bool) (u p k : ℕ) where
  feed_step-Steady : (b : Board) → Steady d u p k b → Steady d u p k (feed_step fpu b).1
  unfolding feed_step pio_push_step
  feed_step-Steady b s = ground arith

  feed_loop-Steady :
      (room : ℕ) (b : Board) → Steady d u p k b → Steady d u p k (feed_loop fpu room b)
  unfolding feed_loop
  feed_loop-Steady zero b s = s
  feed_loop-Steady (suc room) b s =
      let s' = feed_step-Steady b s in
      ground (arith, s', feed_loop-Steady room (feed_step fpu b).1 s')

  feeds-Steady :
      (rooms : List ℕ) (b : Board) → Steady d u p k b → Steady d u p k (feeds fpu rooms b)
  unfolding feed
  feeds-Steady [] b s = s
  feeds-Steady (room ∷ rooms) b s =
      feeds-Steady rooms (feed fpu room b) (ground (arith, feed_loop-Steady room b s))

motion_start-Steady :
    (z : ℤ) (b : Board)
    → 0 < pos_part z + neg_part z
    → Steady
        (is_ahead z)
        (made (is_ahead z) b.acts)
        (length (pushed b.acts))
        (made (not (is_ahead z)) b.acts)
        (motion_start z b)
unfolding motion_start
motion_start-Steady (pos zero) b h = absurd (omega arith)
motion_start-Steady (pos (suc n)) b h = ground arith
motion_start-Steady (negsuc n) b h = ground arith

module _ (fpu : Fpu) where
  -- A move of n steps with 0 < n < 2^31 pushes its n words while DIR is high, if it goes forward,
  -- and while DIR is low, if it goes backward, none at the other level, and leaves DIR at that
  -- level, however the space in the FIFO is spread over the rounds of the main loop, if the rounds
  -- offer space for more than n words and no command comes between them.
  pub move-made :
      (z : ℤ) (b : Board) (rooms : List ℕ)
      → 0 < pos_part z + neg_part z
      → pos_part z + neg_part z < 2 ^ 31
      → pos_part z + neg_part z < sum rooms
      → let d = is_ahead z in
        let after = (feeds fpu rooms (motion_start z b)).acts in
        (made d after ≡ made d b.acts + (pos_part z + neg_part z))
        × (made (not d) after ≡ made (not d) b.acts)
        × (forward after ≡ d)
  move-made z b rooms some_steps in_range enough =
      let o = move-IsOver fpu z b rooms some_steps in_range enough in
      let s =
        feeds-Steady fpu _ _ _ _ rooms (motion_start z b) (motion_start-Steady z b some_steps) in
      (omega (arith, s.along, o.count), s.against, s.level)
