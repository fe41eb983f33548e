-- ===== src/Core1/Commands/Requests.antt =====
-- The mailbox protocol as core0 sees it: each request gets one reply word.
use rp2350_zephyr_stepper.Prelude.{
  ℕ, Bool, zero, suc, ◌≡◌, ◌%◌, ◌^◌, ◌&&◌, ltb, leb, min, max, get_or, unsigned32, refl, true,
  false, Option, none, some, List, [], ◌∷◌, ◌++◌, arith, ℤ, pos, negsuc, ◌-ℤ◌, if◌then◌else◌,
  signed32, wrap32,
}
use rp2350_zephyr_stepper.Core1.Board.{
  moving, Motion, is_moving, Board, fifo_read_blocking, fifo_write_blocking, replies, pushed,
}
use rp2350_zephyr_stepper.Core1.Float.{flt, fle}
use rp2350_zephyr_stepper.Core1.Motion.{def_accel, def_decel, motion_start}
use rp2350_zephyr_stepper.Core1.Commands.{
  accepted_speed, accepted_rate, status_reply, handle_command, dispatch, handle_speed, handle_accel,
  handle_decel, handle_move, handle_stop, handle_status,
}

-- A request of core0, with the payload as the word that carries it.
pub data Request : Type 0 where
  speed accel decel move status : ℕ → Request
  stop : Request

abbrev pub encode : Request → List ℕ
encode (speed v) = 0 ∷ v ∷ []
encode (accel v) = 1 ∷ v ∷ []
encode (decel v) = 2 ∷ v ∷ []
encode (move w) = 3 ∷ w ∷ []
encode (status f) = 5 ∷ f ∷ []
encode stop = 4 ∷ []

-- A move of some steps, from standstill.
abbrev pub begin_move : ℤ → Motion → Motion
begin_move (pos zero) m = m
begin_move (pos (suc n)) m = record m {
  remaining = pos (suc n);
  speed = 0x4248_0000;
  stop_req = false;
  state = moving;
}
begin_move (negsuc n) m = record m {
  remaining = wrap32 (pos (suc n));
  speed = 0x4248_0000;
  stop_req = false;
  state = moving;
}

-- The patterns of the numbers and the two infinities; all others are NaNs. From 0 up, the numbers
-- are in the order of their patterns, and from 2^31 up their sign is minus.
abbrev pub is_number : ℕ → Bool
is_number v = leb (v % 2 ^ 31) 0x7f80_0000

-- The speed limit that a request for `v` leads to: the nearest speed between 50.0f and 160000.0f.
-- A NaN is taken as it is.
abbrev pub nearest_speed : ℕ → ℕ
nearest_speed v =
    if is_number v
    then (if ltb v (2 ^ 31) then min 0x481c_4000 (max 0x4248_0000 v) else 0x4248_0000)
    else v

-- The rate that a request for `v` leads to: `v`, if it is above 0 and at most 2666666.0f, and
-- 1000000.0f if it is another number. A NaN is taken as it is.
abbrev pub rate_in_range : ℕ → ℕ
rate_in_range v =
    if is_number v then (if ltb 0 v && leb v 0x4a22_c2a8 then v else 0x4974_2400) else v

-- The status fields in their order, and 0 behind them.
abbrev pub status_fields : Motion → List ℕ
status_fields m =
    (if is_moving m.state then 1 else 0)
    ∷ m.max_speed
    ∷ m.accel
    ∷ m.decel
    ∷ m.speed
    ∷ unsigned32 m.remaining
    ∷ []

-- What a request does to the motion state, and the word that answers it: the opcodes, status fields
-- and acknowledgements are the numbers of mailbox_proto.h, the ranges those that core1_main.c gives
-- in steps/s and steps/s^2, and no function of `handle_command` is used.
abbrev pub answer : Request → Motion → Motion × ℕ
answer (speed v) m = (record m { max_speed = nearest_speed v }, nearest_speed v)
answer (accel v) m = (record m { accel = rate_in_range v }, rate_in_range v)
answer (decel v) m = (record m { decel = rate_in_range v }, rate_in_range v)
answer (move w) m = if is_moving m.state then (m, 1) else (begin_move (signed32 w) m, 0)
answer (status f) m = (m, get_or (status_fields m) f 0)
answer stop m = (if is_moving m.state then record m { stop_req = true } else m, 0)

accepted_speed-nearest_speed : (v : ℕ) → accepted_speed v ≡ nearest_speed v
unfolding accepted_speed flt
accepted_speed-nearest_speed v = ground arith

accepted_rate-accel : (v : ℕ) → accepted_rate def_accel v ≡ rate_in_range v
unfolding accepted_rate flt fle
accepted_rate-accel v = ground arith

accepted_rate-decel : (v : ℕ) → accepted_rate def_decel v ≡ rate_in_range v
unfolding accepted_rate flt fle
accepted_rate-decel v = ground arith

status_reply-status_fields : (m : Motion) (f : ℕ) → status_reply m f ≡ get_or (status_fields m) f 0
unfolding status_reply
status_reply-status_fields m zero = refl
status_reply-status_fields m (suc zero) = refl
status_reply-status_fields m (suc (suc zero)) = refl
status_reply-status_fields m (suc (suc (suc zero))) = refl
status_reply-status_fields m (suc (suc (suc (suc zero)))) = refl
status_reply-status_fields m (suc (suc (suc (suc (suc zero))))) = refl
status_reply-status_fields m (suc (suc (suc (suc (suc (suc f)))))) = ground arith

-- The handler came to an end, on a board of which `P` holds.
abbrev pub Handled : (Board → Type 0) → Option (Unit {0} × Board) → Type 0
Handled P none = ⊥
Handled P (some (_, b)) = P b

motion_start_lem :
    (z : ℤ) (b : Board)
    → ((motion_start z b).m ≡ begin_move z b.m)
      × ((motion_start z b).rx ≡ b.rx)
      × (replies (motion_start z b).acts ≡ replies b.acts)
      × (pushed (motion_start z b).acts ≡ pushed b.acts)
unfolding motion_start ◌-ℤ◌
motion_start_lem (pos zero) b = ground arith
motion_start_lem (pos (suc n)) b = ground arith
motion_start_lem (negsuc n) b = ground arith

-- The board after a request: its words are gone, the state is as `answer` says, and one reply word
-- and no step word was written.
abbrev pub Answered : Request → Board → List ℕ → Board → Type 0
Answered r b rest b' =
    (b'.rx ≡ rest)
    × (b'.m ≡ (answer r b.m).0)
    × (replies b'.acts ≡ (answer r b.m).1 ∷ replies b.acts)
    × (pushed b'.acts ≡ pushed b.acts)

-- When the words of a request are in the FIFO, handle_command comes to its end, takes exactly
-- these words, changes the motion state as `answer` says for that request, writes exactly one
-- reply word, the one of `answer`, and pushes no step.
pub handle_command-answer :
    (r : Request) (b : Board) (rest : List ℕ)
    → b.rx ≡ encode r ++ rest
    → Handled (Answered r b rest) (handle_command b)
unfolding handle_command dispatch handle_speed handle_accel handle_decel handle_move handle_stop
    handle_status fifo_read_blocking fifo_write_blocking
handle_command-answer (speed v) b rest e = ground (arith, accepted_speed-nearest_speed v)
handle_command-answer (accel v) b rest e = ground (arith, accepted_rate-accel v)
handle_command-answer (decel v) b rest e = ground (arith, accepted_rate-decel v)
handle_command-answer (move w) b rest e =
    ground (arith, motion_start_lem (signed32 w) (record b { rx = rest }))
handle_command-answer (status f) b rest e = ground (arith, status_reply-status_fields b.m f)
handle_command-answer stop b rest e = ground arith
