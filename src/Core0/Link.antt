-- ===== src/Core0/Link.antt =====
-- The two cores together: core0's mailbox calls (src/stepper_shell.c) with core1's main loop
-- (core1/core1_main.c) at the other end of the FIFO. While core0 waits for a reply, core1 runs a
-- round of its main loop.
pub mod Moves
pub mod Settings
pub mod Pulses
use mathlib.Core.List.{append-nil}
use rp2350_zephyr_stepper.Prelude.{
  zero, suc, refl, sym, ℕ, ◌≡◌, true, none, some, Option, List, [], ◌∷◌, ◌++◌, length, ◌==◌,
  if◌then◌else◌, drop, get_or, arith, zero, suc, refl,
}
use rp2350_zephyr_stepper.Core1.Float.{Fpu}
use rp2350_zephyr_stepper.Core1.Protocol.{
  cmd_speed, cmd_accel, cmd_decel, cmd_move, cmd_stop, cmd_status,
}
use rp2350_zephyr_stepper.Core1.Board.{Board, replies, pushed}
use rp2350_zephyr_stepper.Core1.Motion.{feed, feed_loop, feed_step, pio_push_step}
use rp2350_zephyr_stepper.Core1.Commands.{handle_command}
use rp2350_zephyr_stepper.Core1.Commands.Requests.{
  Request, Handled, Answered, encode, handle_command-answer, speed, accel, decel, move, status,
  stop, answer,
}
use rp2350_zephyr_stepper.Core0.Mailbox.{
  mbox_send_word, mbox_wait_reply, interrupts, woken, Ret, ok, Core0, Mbox, Run, cmd_roundtrip0,
  cmd_roundtrip1,
}

-- Core1 with the words on their way to it, and the space that the PIO has in its next rounds.
pub record Wire : Type 0 where
  pub board : Board
  pub rooms : List ℕ

-- The reply that a round has added, if it has added one.
abbrev pub new_reply : List ℕ → List ℕ → Option ℕ
new_reply before [] = none
new_reply before (w ∷ ws) = if length ws == length before then some w else none

abbrev pub after_round : Wire → Board → Option (Unit {0} × Board) → Option ℕ × Wire
after_round e b none = (none, e)
after_round e b (some (_, b')) =
    (new_reply (replies b.acts) (replies b'.acts), record e { board = b'; rooms = drop 1 e.rooms })

module _ (fpu : Fpu) where
  -- Core1's board when it comes to look at the FIFO.
  abbrev pub fed : Wire → Board
  fed e = feed fpu (get_or e.rooms 0 0) e.board

  abbrev pub wire : Mbox Wire
  wire = record {
    send =
        λ word e. (ok tt, [], record e { board = record e.board { rx = e.board.rx ++ word ∷ [] } });
    sleep = λ e. after_round e (fed e) (handle_command (fed e));
    device_is_ready = λ e. true;
    register_callback = λ e. (ok tt, e);
    set_enabled = λ e. (ok tt, e);
  }

-- A request of the protocol as the shell makes it.
abbrev pub ask : {E : Type 0} → Mbox E → Request → Run E ℕ
ask mbox (speed v) = cmd_roundtrip1 mbox cmd_speed v
ask mbox (accel v) = cmd_roundtrip1 mbox cmd_accel v
ask mbox (decel v) = cmd_roundtrip1 mbox cmd_decel v
ask mbox (move w) = cmd_roundtrip1 mbox cmd_move w
ask mbox (status f) = cmd_roundtrip1 mbox cmd_status f
ask mbox stop = cmd_roundtrip0 mbox cmd_stop

-- No reply is waiting, and no word is on its way to core1.
pub record IsIdle (s : Core0 Wire) : Type 0 where
  pub none_waiting : s.reply_sem ≡ 0
  pub none_sent : s.env.board.rx ≡ []

module _ (fpu : Fpu) where
  -- A round's steps neither look at the words from core0 nor change them.
  step_frame :
      (b : Board) (ws : List ℕ)
      → feed_step fpu (record b { rx = ws })
        ≡ ((feed_step fpu b).0, record (feed_step fpu b).1 { rx = ws })
  unfolding feed_step pio_push_step
  step_frame b ws = ground arith

  feed_loop_frame :
      (room : ℕ) (b : Board) (ws : List ℕ)
      → feed_loop fpu room (record b { rx = ws }) ≡ record (feed_loop fpu room b) { rx = ws }
  unfolding feed_loop
  feed_loop_frame zero b ws = refl
  feed_loop_frame (suc room) b ws =
      ground (arith, step_frame b ws, feed_loop_frame room (feed_step fpu b).1 ws)

  feed_frame :
      (room : ℕ) (b : Board) (ws : List ℕ)
      → feed fpu room (record b { rx = ws }) ≡ record (feed fpu room b) { rx = ws }
  unfolding feed
  feed_frame room b ws = ground (arith, feed_loop_frame room b ws)

  -- The request is answered by core1 as `answer` says, and the link is idle again.
  pub record IsServed (r : Request) (s : Core0 Wire) (res : Ret ℕ × Core0 Wire) : Type 0 where
    pub silent : res.1.out ≡ s.out
    pub result : res.0 ≡ ok (answer r (fed fpu s.env).m).1
    pub idle : IsIdle res.1
    pub motion : res.1.env.board.m ≡ (answer r (fed fpu s.env).m).0
    pub steps : pushed res.1.env.board.acts ≡ pushed (fed fpu s.env).acts

  -- The link with the words of a request in the FIFO.
  sent : Request → Wire → Wire
  sent r e = record e { board = record e.board { rx = encode r } }

  ask-sends :
      (r : Request) (s : Core0 Wire)
      → s.env.board.rx ≡ []
      → ask (wire fpu) r s ≡ mbox_wait_reply (wire fpu) (record s { env = sent r s.env })
  unfolding sent cmd_roundtrip0 cmd_roundtrip1 mbox_send_word interrupts
  ask-sends (speed v) s h = rw h refl
  ask-sends (accel v) s h = rw h refl
  ask-sends (decel v) s h = rw h refl
  ask-sends (move w) s h = rw h refl
  ask-sends (status f) s h = rw h refl
  ask-sends stop s h = rw h refl

  fed-sent : (r : Request) (e : Wire) → fed fpu (sent r e) ≡ record (fed fpu e) { rx = encode r }
  unfolding sent
  fed-sent r e = feed_frame (get_or e.rooms 0 0) e.board (encode r)

  round-Answered :
      (r : Request) (e : Wire) (b : Board) (o : Option (Unit {0} × Board))
      → Handled (Answered r b []) o
      → ((after_round e b o).0 ≡ some (answer r b.m).1)
        × (Answered r b [] (after_round e b o).1.board)
  round-Answered r e b none h = absurd h
  round-Answered r e b (some (_, b')) h = (ground (arith, h), h)

  wait-sleeps :
      {E : Type 0} (mbox : Mbox E) (s : Core0 E)
      → s.reply_sem ≡ 0
      → mbox_wait_reply mbox s
        ≡ woken mbox (mbox.sleep s.env).0 (record s { env = (mbox.sleep s.env).1 })
  unfolding mbox_wait_reply
  wait-sleeps mbox s h = ground arith

  -- With no reply waiting and no word on its way, a request that core0 makes over the FIFO returns
  -- the word with which `answer` replies to it in the motion state that core1 has after the first
  -- half of its round, puts core1 into the state of `answer`, pushes no step but those of that
  -- half round, and leaves the link as idle as before.
  pub ask-IsServed : (r : Request) (s : Core0 Wire) → IsIdle s → IsServed r s (ask (wire fpu) r s)
  unfolding woken
  ask-IsServed r s i =
      let e' = sent r s.env in
      let b : Board = record (fed fpu s.env) { rx = encode r } in
      let h = handle_command-answer r b [] (sym (append-nil (encode r))) in
      let (w, a) = round-Answered r e' b (handle_command b) h in
      rw
        (
          ask-sends r s i.none_sent,
          wait-sleeps (wire fpu) (record s { env = e' }) i.none_waiting,
          fed-sent r s.env,
          w,
        )
        (record {
          silent = refl;
          result = refl;
          idle = record { none_waiting = i.none_waiting; none_sent = a.0 };
          motion = a.1;
          steps = a.3;
        })
