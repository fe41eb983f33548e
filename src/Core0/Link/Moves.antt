-- ===== src/Core0/Link/Moves.antt =====
-- `stepper move` from the shell of core0 (src/stepper_shell.c) to the step words that core1
-- (core1/core1_main.c) pushes to the PIO.
use rp2350_zephyr_stepper.Prelude.{
  ℕ, zero, suc, ◌+◌, ◌-◌, ◌≤◌, get_or, ◌^◌, ◌<◌, ◌≡◌, false, refl, ap, ◌∙◌, List, ◌∷◌, arith, ℤ,
  pos, negsuc, pos_part, neg_part, signed32, unsigned32, length,
}
use rp2350_zephyr_stepper.Core1.Float.{Fpu}
use rp2350_zephyr_stepper.Core1.Protocol.{stepper_ack_ok, stepper_ack_busy}
use rp2350_zephyr_stepper.Core1.Board.{idle, moving, Motion, pushed}
use rp2350_zephyr_stepper.Core1.Motion.Steps.{
  IsUnderWay, IsOver, feeds, sum, feeds-IsOver, feed-idle, feed-left,
}
use rp2350_zephyr_stepper.Core1.Commands.Requests.{move, begin_move, answer}
use rp2350_zephyr_stepper.Core0.Mailbox.{
  Ret, ok, err, moving_steps, already_moving, Core0, Mbox, say,
}
use rp2350_zephyr_stepper.Core0.Stepper.{failure, request_move, move_steps, Libc, cmd_stepper_move}
use rp2350_zephyr_stepper.Core0.Link.{Wire, wire, fed, ask, IsIdle, ask-IsServed}

abbrev pub size : ℤ → ℕ
size z = pos_part z + neg_part z

-- The `uint32_t` of the mailbox carries an `int32_t`.
pub signed-unsigned : (z : ℤ) → size z < 2 ^ 31 → signed32 (unsigned32 z) ≡ z
signed-unsigned (pos n) h = ground arith
signed-unsigned (negsuc n) h = ground arith

begin_move-left :
    (z : ℤ) (m : Motion)
    → 0 < size z
    → size z < 2 ^ 31
    → ((begin_move z m).remaining ≡ pos (size z))
      × ((begin_move z m).state ≡ moving)
      × ((begin_move z m).stop_req ≡ false)
begin_move-left (pos zero) m h k = absurd (omega arith)
begin_move-left (pos (suc n)) m h k = ground arith
begin_move-left (negsuc n) m h k = ground arith

module _ {E : Type 0} (mbox : Mbox E) where
  move_steps-request : (z : ℤ) → 0 < size z → move_steps mbox z ≡ request_move mbox z
  unfolding move_steps
  move_steps-request (pos zero) h = absurd (omega arith)
  move_steps-request (pos (suc n)) h = refl
  move_steps-request (negsuc n) h = refl

  request_move-ok :
      (z : ℤ) (s s' : Core0 E)
      → ask mbox (move (unsigned32 z)) s ≡ (ok stepper_ack_ok, s')
      → request_move mbox z s ≡ (ok tt, say (moving_steps z) s')
  unfolding request_move
  request_move-ok z s s' h = rw h refl

  request_move-busy :
      (z : ℤ) (s s' : Core0 E)
      → ask mbox (move (unsigned32 z)) s ≡ (ok stepper_ack_busy, s')
      → request_move mbox z s ≡ (err failure, say already_moving s')
  unfolding request_move
  request_move-busy z s s' h = rw h refl

module _ (fpu : Fpu) where
  answer-move :
      (z : ℤ) (m : Motion)
      → m.state ≡ idle
      → size z < 2 ^ 31
      → answer (move (unsigned32 z)) m ≡ (begin_move z m, stepper_ack_ok)
  answer-move z m h k = rw (signed-unsigned z k) (ground arith)

  -- The printed line, and the steps that core1 makes.
  pub record IsMoved (z : ℤ) (rooms : List ℕ) (s : Core0 Wire) (res : Ret (Unit {0}) × Core0 Wire)
      : Type 0 where
    pub result : res.0 ≡ ok tt
    pub shown : res.1.out ≡ moving_steps z ∷ s.out
    pub idle_again : IsIdle res.1
    pub stepped :
        IsOver (feeds fpu rooms res.1.env.board) (length (pushed s.env.board.acts) + size z)

  -- With both cores at rest, no reply waiting and no word on its way, `stepper move` of n steps in
  -- either direction, with 0 < n < 2^31, succeeds, prints the move, leaves no reply behind, and
  -- makes core1 push exactly n words to the PIO and stand still, if the later rounds of core1's
  -- main loop offer space for more than n words and no command comes between them.
  pub cmd_stepper_move-IsMoved :
      (libc : Libc) (arg rooms : List ℕ) (s : Core0 Wire)
      → IsIdle s
      → s.env.board.m.state ≡ idle
      → 0 < size (libc.strtol arg)
      → size (libc.strtol arg) < 2 ^ 31
      → size (libc.strtol arg) < sum rooms
      → IsMoved (libc.strtol arg) rooms s (cmd_stepper_move (wire fpu) libc arg s)
  unfolding cmd_stepper_move
  cmd_stepper_move-IsMoved libc arg rooms s i halted some_steps in_range enough =
      let z = libc.strtol arg in
      let still : fed fpu s.env ≡ s.env.board = feed-idle fpu _ s.env.board halted in
      let served = ask-IsServed fpu (move (unsigned32 z)) s i in
      let s' = (ask (wire fpu) (move (unsigned32 z)) s).1 in
      let eq : answer (move (unsigned32 z)) (fed fpu s.env).m
          ≡ (begin_move z s.env.board.m, stepper_ack_ok) =
        rw still (answer-move z s.env.board.m halted in_range) in
      let motion = served.motion ∙ ap (λ p. p.0) eq in
      let reply = served.result ∙ ap (λ p. ok p.1) eq in
      let (left, running, wanted) = begin_move-left z s.env.board.m some_steps in_range in
      let under_way : IsUnderWay s'.env.board (size z) (length (pushed s.env.board.acts)) = record {
        state = ap (λ m. m.state) motion ∙ running;
        left = ap (λ m. m.remaining) motion ∙ left;
        running = ap (λ m. m.stop_req) motion ∙ wanted;
        count = ap length served.steps ∙ ap (λ b. length (pushed b.acts)) still;
      } in
      rw
        (
          move_steps-request (wire fpu) z some_steps,
          request_move-ok (wire fpu) z s s' (ap (λ x. (x, s')) reply),
        )
        (record {
          result = refl;
          shown = ap (λ l. moving_steps z ∷ l) served.silent;
          idle_again = record {
            none_waiting = served.idle.none_waiting;
            none_sent = served.idle.none_sent;
          };
          stepped = feeds-IsOver fpu rooms (size z) _ s'.env.board under_way enough;
        })

  -- The move goes on, its next `room` words pushed, and the printed line says so.
  pub record IsRefused (room left count : ℕ) (s : Core0 Wire) (res : Ret (Unit {0}) × Core0 Wire)
      : Type 0 where
    pub result : res.0 ≡ err failure
    pub shown : res.1.out ≡ already_moving ∷ s.out
    pub idle_again : IsIdle res.1
    pub goes_on : IsUnderWay res.1.env.board (left - room) (count + room)

  -- With no reply waiting, no word on its way, and a move under way that has at least as many
  -- steps left as the PIO has space for in core1's next round and that is not to be stopped,
  -- `stepper move` of a number of steps other than 0 fails, prints that the motor is moving,
  -- leaves no reply behind, and the move stays under way: in that round core1 pushes as many of
  -- its words as there is space for, and the steps left are fewer by this number.
  pub cmd_stepper_move-busy :
      (libc : Libc) (arg : List ℕ) (left count : ℕ) (s : Core0 Wire)
      → IsIdle s
      → IsUnderWay s.env.board left count
      → get_or s.env.rooms 0 0 ≤ left
      → 0 < size (libc.strtol arg)
      → IsRefused (get_or s.env.rooms 0 0) left count s (cmd_stepper_move (wire fpu) libc arg s)
  unfolding cmd_stepper_move
  cmd_stepper_move-busy libc arg left count s i under_way room some_steps =
      let z = libc.strtol arg in
      let served = ask-IsServed fpu (move (unsigned32 z)) s i in
      let s' = (ask (wire fpu) (move (unsigned32 z)) s).1 in
      let u = feed-left fpu (get_or s.env.rooms 0 0) left count s.env.board under_way room in
      let eq : answer (move (unsigned32 z)) (fed fpu s.env).m
          ≡ ((fed fpu s.env).m, stepper_ack_busy) =
        ground (arith, u.state) in
      let motion = served.motion ∙ ap (λ p. p.0) eq in
      let reply = served.result ∙ ap (λ p. ok p.1) eq in
      rw
        (
          move_steps-request (wire fpu) z some_steps,
          request_move-busy (wire fpu) z s s' (ap (λ x. (x, s')) reply),
        )
        (record {
          result = refl;
          shown = ap (λ l. already_moving ∷ l) served.silent;
          idle_again = record {
            none_waiting = served.idle.none_waiting;
            none_sent = served.idle.none_sent;
          };
          goes_on = record {
            state = ap (λ m. m.state) motion ∙ u.state;
            left = ap (λ m. m.remaining) motion ∙ u.left;
            running = ap (λ m. m.stop_req) motion ∙ u.running;
            count = ap length served.steps ∙ u.count;
          };
        })
