-- ===== src/Core1/Motion/Steps.antt =====
-- A move pushes one PIO word for each of its steps.
use rp2350_zephyr_stepper.Prelude.{
  ℕ, zero, suc, ◌+◌, ◌-◌, ◌^◌, ◌<◌, ◌≤◌, ◌≡◌, true, false, List, [], ◌∷◌, arith, ℤ, pos, negsuc,
  ◌-ℤ◌, leb, length, Bool-cases, inl, inr, pos_part, neg_part, refl,
}
use rp2350_zephyr_stepper.Core1.Float.{Fpu}
use rp2350_zephyr_stepper.Core1.Board.{idle, moving, Board, pushed}
use rp2350_zephyr_stepper.Core1.Motion.{pio_push_step, feed_step, feed_loop, feed, motion_start}

-- A move under way: `n` steps are left, and `k` words have been pushed since some moment.
pub record IsUnderWay (b : Board) (n k : ℕ) : Type 0 where
  pub state : b.m.state ≡ moving
  pub left : b.m.remaining ≡ pos n
  pub running : b.m.stop_req ≡ false
  pub count : length (pushed b.acts) ≡ k

-- A move that is over, with `k` words pushed.
pub record IsOver (b : Board) (k : ℕ) : Type 0 where
  pub state : b.m.state ≡ idle
  pub halted : b.m.speed ≡ 0
  pub count : length (pushed b.acts) ≡ k

-- The rounds of the main loop that follow one another with no command between them.
abbrev pub feeds : Fpu → List ℕ → Board → Board
feeds fpu [] b = b
feeds fpu (room ∷ rooms) b = feeds fpu rooms (feed fpu room b)

abbrev pub sum : List ℕ → ℕ
sum [] = 0
sum (n ∷ ns) = n + sum ns

motion_start-IsUnderWay :
    (z : ℤ) (b : Board)
    → 0 < pos_part z + neg_part z
    → pos_part z + neg_part z < 2 ^ 31
    → IsUnderWay (motion_start z b) (pos_part z + neg_part z) (length (pushed b.acts))
unfolding motion_start ◌-ℤ◌
motion_start-IsUnderWay (pos zero) b h k = absurd (omega arith)
motion_start-IsUnderWay (pos (suc n)) b h k = ground arith
motion_start-IsUnderWay (negsuc n) b h k = ground arith

module _ (fpu : Fpu) where
  step_more :
      (b : Board) (n k : ℕ)
      → IsUnderWay b (suc n) k
      → ((feed_step fpu b).0 ≡ true) × IsUnderWay (feed_step fpu b).1 n (suc k)
  unfolding feed_step pio_push_step ◌-ℤ◌
  step_more b n k u = ground arith

  step_last :
      (b : Board) (k : ℕ)
      → IsUnderWay b 0 k
      → ((feed_step fpu b).0 ≡ false) × IsOver (feed_step fpu b).1 k
  unfolding feed_step
  step_last b k u = ground arith

  feed_loop-IsUnderWay :
      (room n k : ℕ) (b : Board)
      → IsUnderWay b (n + room) k
      → IsUnderWay (feed_loop fpu room b) n (k + room)
  unfolding feed_loop
  feed_loop-IsUnderWay zero n k b u = ground arith
  feed_loop-IsUnderWay (suc room) n k b u =
      let u' : IsUnderWay b (suc (n + room)) k = ground arith in
      ground (
        arith,
        step_more b (n + room) k u',
        feed_loop-IsUnderWay room n (suc k) (feed_step fpu b).1,
      )

  feed_loop-IsOver :
      (room n k : ℕ) (b : Board)
      → IsUnderWay b n k
      → n < room
      → IsOver (feed_loop fpu room b) (k + n)
  unfolding feed_loop
  feed_loop-IsOver zero n k b u h = absurd (omega arith)
  feed_loop-IsOver (suc room) zero k b u h = ground (arith, step_last b k u)
  feed_loop-IsOver (suc room) (suc n) k b u h =
      ground (arith, step_more b n k u, feed_loop-IsOver room n (suc k) (feed_step fpu b).1)

  feed_loop-left :
      (room n k : ℕ) (b : Board)
      → IsUnderWay b n k
      → room ≤ n
      → IsUnderWay (feed_loop fpu room b) (n - room) (k + room)
  feed_loop-left room n k b u h =
      let u' : IsUnderWay b (n - room + room) k = ground arith in
      feed_loop-IsUnderWay room (n - room) k b u'

  feed-loop : (room : ℕ) (b : Board) → b.m.state ≡ moving → feed fpu room b ≡ feed_loop fpu room b
  unfolding feed
  feed-loop room b h = ground arith

  pub feed-left :
      (room n k : ℕ) (b : Board)
      → IsUnderWay b n k
      → room ≤ n
      → IsUnderWay (feed fpu room b) (n - room) (k + room)
  feed-left room n k b u h = rw (feed-loop room b u.state) (feed_loop-left room n k b u h)

  pub feed-idle : (room : ℕ) (b : Board) → b.m.state ≡ idle → feed fpu room b ≡ b
  unfolding feed
  feed-idle room b h = ground arith

  feeds-idle : (rooms : List ℕ) (b : Board) → b.m.state ≡ idle → feeds fpu rooms b ≡ b
  feeds-idle [] b h = refl
  feeds-idle (room ∷ rooms) b h = rw (feed-idle room b h) (feeds-idle rooms b h)

  -- A move under way with n steps left and no stop request pushes exactly n more words and then
  -- stands still, however the space in the FIFO is spread over the rounds, if the rounds offer
  -- space for more than n words and no command comes between them.
  pub feeds-IsOver :
      (rooms : List ℕ) (n k : ℕ) (b : Board)
      → IsUnderWay b n k
      → n < sum rooms
      → IsOver (feeds fpu rooms b) (k + n)
  feeds-IsOver [] n k b u h = absurd (omega arith)
  feeds-IsOver (room ∷ rooms) n k b u h =
      rw (feed-loop room b u.state) (elim (Bool-cases (leb room n)) [
        | inl fits ↦
            let more : n - room < sum rooms = ground arith in
            let over =
              feeds-IsOver rooms (n - room) (k + room) (feed_loop fpu room b)
                (feed_loop-left room n k b u (ground arith)) more in
            let e : k + room + (n - room) ≡ k + n = ground arith in rw e at over
        | inr tight ↦
            let over = feed_loop-IsOver room n k b u (ground arith) in
            rw (feeds-idle rooms (feed_loop fpu room b) over.state) over
      ])

  -- A move of n steps in either direction, with 0 < n < 2^31, pushes exactly n words to the PIO
  -- and then stands still, however the space in the FIFO is spread over the rounds of the main
  -- loop, if the rounds offer space for more than n words and no command comes between them.
  pub move-IsOver :
      (z : ℤ) (b : Board) (rooms : List ℕ)
      → 0 < pos_part z + neg_part z
      → pos_part z + neg_part z < 2 ^ 31
      → pos_part z + neg_part z < sum rooms
      → IsOver
          (feeds fpu rooms (motion_start z b))
          (length (pushed b.acts) + (pos_part z + neg_part z))
  move-IsOver z b rooms some_steps in_range enough =
      feeds-IsOver rooms (pos_part z + neg_part z) (length (pushed b.acts)) (motion_start z b)
        (motion_start-IsUnderWay z b some_steps in_range) enough

  -- With a stop request during a move, the next round with space in the FIFO pushes no word, and
  -- leaves the state idle with speed 0.
  pub feed-stop :
      (room : ℕ) (b : Board)
      → b.m.state ≡ moving
      → b.m.stop_req ≡ true
      → IsOver (feed fpu (suc room) b) (length (pushed b.acts))
  unfolding feed feed_loop feed_step
  feed-stop room b h s = ground arith
