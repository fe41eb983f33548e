-- ===== src/Core0/Mailbox/Stale.antt =====
-- Replies that come after the time-out of their request (src/stepper_shell.c): the semaphore keeps
-- them for the next request.
use rp2350_zephyr_stepper.Prelude.{ℕ, ◌≡◌, refl, ap, List, [], ◌∷◌, arith}
use rp2350_zephyr_stepper.Core0.Mailbox.{
  Ret, ok, Core0, Mbox, mbox_cb, interrupts, mbox_send_word, mbox_wait_reply, cmd_roundtrip1,
}

-- Sends succeed, and no interrupt comes in during one.
pub record IsQuiet {E : Type 0} (mbox : Mbox E) : Type 0 where
  pub sent : (word : ℕ) (e : E) → (mbox.send word e).0 ≡ ok tt
  pub none_in : (word : ℕ) (e : E) → (mbox.send word e).1 ≡ []

-- A request with the word that core1 answers it with, when that answer is late or in time.
pub record Exchange : Type 0 where
  pub opcode : ℕ
  pub payload : ℕ
  pub reply : ℕ

module _ {E : Type 0} (mbox : Mbox E) where
  -- What the requests return, if the interrupt of each one's reply comes in after its return.
  abbrev pub results : List Exchange → Core0 E → List (Ret ℕ)
  results [] s = []
  results (x ∷ xs) s =
      let (r, s') = cmd_roundtrip1 mbox x.opcode x.payload s in r ∷ results xs (mbox_cb x.reply s')

-- One word too late, throughout.
abbrev pub shifted : ℕ → List Exchange → List (Ret ℕ)
shifted stale [] = []
shifted stale (x ∷ xs) = ok stale ∷ shifted x.reply xs

module _ {E : Type 0} {mbox : Mbox E} (quiet : IsQuiet mbox) where
  send-quiet :
      (word : ℕ) (s : Core0 E)
      → (e : E) × (mbox_send_word mbox word s ≡ (ok tt, record s { env = e }))
  unfolding mbox_send_word interrupts
  send-quiet word s =
      ((mbox.send word s.env).2, ground (arith, quiet.sent word s.env, quiet.none_in word s.env))

  wait-stale :
      (s : Core0 E)
      → s.reply_sem ≡ 1
      → mbox_wait_reply mbox s ≡ (ok s.last_reply, record s { reply_sem = 0 })
  unfolding mbox_wait_reply
  wait-stale s h = ground arith

  roundtrip-stale :
      (opcode payload : ℕ) (s : Core0 E)
      → s.reply_sem ≡ 1
      → (e : E) × (cmd_roundtrip1 mbox opcode payload s
          ≡ (ok s.last_reply, record s { env = e; reply_sem = 0 }))
  unfolding cmd_roundtrip1
  roundtrip-stale opcode payload s h =
      let (e, p) = send-quiet opcode s in
      let (e', q) = send-quiet payload (record s { env = e }) in
      (e', rw (p, q) (wait-stale (record s { env = e' }) h))

  -- If a reply already waits in the semaphore, and the reply to each of the next requests comes in
  -- after the request has returned, each of them returns at once with the word that belongs to the
  -- request before it, for any number of requests, on a mailbox whose sends succeed without an
  -- interrupt.
  pub results-shifted :
      (xs : List Exchange) (s : Core0 E)
      → s.reply_sem ≡ 1
      → results mbox xs s ≡ shifted s.last_reply xs
  unfolding mbox_cb
  results-shifted [] s h = refl
  results-shifted (x ∷ xs) s h =
      let (e, p) = roundtrip-stale x.opcode x.payload s h in
      let s' : Core0 E = record s { env = e; reply_sem = 0 } in
      rw p (ap (λ l. ok s.last_reply ∷ l) (results-shifted xs (mbox_cb x.reply s') refl))
