-- ===== src/Core0/Link/Settings.antt =====
-- `stepper speed` and `stepper status` of core0's shell (src/stepper_shell.c) with core1
-- (core1/core1_main.c) at the other end.
use rp2350_zephyr_stepper.Prelude.{ℕ, ◌≡◌, refl, ap, ◌∙◌, List, ◌∷◌, arith, get_or}
use rp2350_zephyr_stepper.Core1.Float.{Fpu}
use rp2350_zephyr_stepper.Core1.Protocol.{
  status_state, status_max_speed, status_accel, status_decel, status_speed, status_remaining,
}
use rp2350_zephyr_stepper.Core1.Board.{idle, Motion}
use rp2350_zephyr_stepper.Core1.Motion.Steps.{feed-idle}
use rp2350_zephyr_stepper.Core1.Commands.Requests.{speed, status, nearest_speed, status_fields}
use rp2350_zephyr_stepper.Core0.Mailbox.{
  ok, Line, max_speed_set, shown_max_speed, shown_accel, shown_decel, shown_idle, Core0,
}
use rp2350_zephyr_stepper.Core0.Stepper.{
  or_no_response, status_query, cmd_stepper_speed, cmd_stepper_status, Libc,
}
use rp2350_zephyr_stepper.Core0.Link.{Wire, wire, fed, ask, IsIdle, ask-IsServed}

-- The link is idle, core1's state is `m`, and `out` has been printed.
record IsAt (m : Motion) (out : List Line) (s : Core0 Wire) : Type 0 where
  link : IsIdle s
  motion : s.env.board.m ≡ m
  printed : s.out ≡ out

module _ (fpu : Fpu) where
  query :
      (m : Motion) (out : List Line) (field : ℕ) (s : Core0 Wire)
      → m.state ≡ idle
      → IsAt m out s
      → (s' : Core0 Wire) × (status_query (wire fpu) field s
          ≡ (ok (get_or (status_fields m) field 0), s'))
        × IsAt m out s'
  unfolding status_query
  query m out field s halted p =
      let still : fed fpu s.env ≡ s.env.board =
        feed-idle fpu _ s.env.board (ap (λ n. n.state) p.motion ∙ halted) in
      let served = ask-IsServed fpu (status field) s p.link in
      let s' = (ask (wire fpu) (status field) s).1 in
      let e : (fed fpu s.env).m ≡ m = ap (λ b. b.m) still ∙ p.motion in
      let result = served.result ∙ ap (λ n. ok (get_or (status_fields n) field 0)) e in
      (
        s',
        ap (λ x. or_no_response (x, s')) result,
        record {
          link = record {
            none_waiting = served.idle.none_waiting;
            none_sent = served.idle.none_sent;
          };
          motion = served.motion ∙ e;
          printed = served.silent ∙ p.printed;
        },
      )

  -- With no reply waiting, no word on its way and the motor at rest, `stepper status` succeeds,
  -- prints core1's speed limit, acceleration and deceleration and that it is idle, and leaves the
  -- motion state and the link as they were.
  pub cmd_stepper_status-idle :
      (s : Core0 Wire)
      → IsIdle s
      → s.env.board.m.state ≡ idle
      → let res = cmd_stepper_status (wire fpu) s in
        let m = s.env.board.m in
        (res.0 ≡ ok tt)
        × (res.1.out
            ≡ shown_idle
              ∷ shown_decel m.decel
              ∷ shown_accel m.accel
              ∷ shown_max_speed m.max_speed
              ∷ s.out)
        × (res.1.env.board.m ≡ m)
        × IsIdle res.1
  unfolding cmd_stepper_status
  cmd_stepper_status-idle s i halted =
      let m = s.env.board.m in
      let p0 : IsAt m s.out s = record { link = i; motion = refl; printed = refl } in
      let (s1, e1, p1) = query m s.out status_state s halted p0 in
      let (s2, e2, p2) = query m s.out status_max_speed s1 halted p1 in
      let (s3, e3, p3) = query m s.out status_accel s2 halted p2 in
      let (s4, e4, p4) = query m s.out status_decel s3 halted p3 in
      let (s5, e5, p5) = query m s.out status_speed s4 halted p4 in
      let (s6, e6, p6) = query m s.out status_remaining s5 halted p5 in
      let at_rest : get_or (status_fields m) status_state 0 ≡ 0 = ground (arith, halted) in
      rw (e1 ∙ ap (λ n. (ok n, s1)) at_rest, e2, e3, e4, e5, e6)
        (
          refl,
          ap
              (λ l.
                shown_idle
                ∷ shown_decel m.decel
                ∷ shown_accel m.accel
                ∷ shown_max_speed m.max_speed
                ∷ l)
              p6.printed,
          p6.motion,
          record { none_waiting = p6.link.none_waiting; none_sent = p6.link.none_sent },
        )

  -- With no reply waiting and no word on its way, `stepper speed` succeeds, core1's speed limit is
  -- then the requested speed cut to the motor's range, and that limit is what is printed.
  pub cmd_stepper_speed-set :
      (libc : Libc) (arg : List ℕ) (s : Core0 Wire)
      → IsIdle s
      → let res = cmd_stepper_speed (wire fpu) libc arg s in
        (res.0 ≡ ok tt)
        × (res.1.env.board.m
            ≡ record (fed fpu s.env).m { max_speed = nearest_speed (libc.strtof arg) })
        × (res.1.out ≡ max_speed_set (nearest_speed (libc.strtof arg)) ∷ s.out)
        × IsIdle res.1
  unfolding cmd_stepper_speed
  cmd_stepper_speed-set libc arg s i =
      let v = libc.strtof arg in
      let served = ask-IsServed fpu (speed v) s i in
      let s' = (ask (wire fpu) (speed v) s).1 in
      let e : ask (wire fpu) (speed v) s ≡ (ok (nearest_speed v), s') =
        ap (λ x. (x, s')) served.result in
      rw e (
        refl,
        served.motion,
        ap (λ l. max_speed_set (nearest_speed v) ∷ l) served.silent,
        record { none_waiting = served.idle.none_waiting; none_sent = served.idle.none_sent },
      )
