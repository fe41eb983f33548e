-- ===== src/Core0/Mailbox.antt =====
-- Core0's side of the mailbox (src/stepper_shell.c): the callback, the semaphore of the replies,
-- and the request of one or two words. Zephyr's mailbox driver is the parameter `Mbox` over an
-- environment that no code here looks into.
pub mod Stale
use rp2350_zephyr_stepper.Prelude.{
  ℕ, suc, Bool, Option, none, some, List, [], ◌∷◌, min, ℤ, if◌then◌else◌,
}
use rp2350_zephyr_stepper.Lan9250.World.{enodev}

-- `err e` is the return value `-e`.
pub data Ret (A : Type 0) : Type 0 where
  ok : A → Ret A
  err : ℕ → Ret A

abbrev pub etimedout : ℕ
etimedout = 116

-- What the commands print; a speed or rate is a float pattern.
pub data Line : Type 0 where
  max_speed_set accel_set decel_set : ℕ → Line
  shown_max_speed shown_accel shown_decel : ℕ → Line
  moving_steps : ℤ → Line
  shown_moving : ℤ → ℕ → Line
  shown_idle stop_requested no_response zero_steps already_moving : Line

-- The static variables, with what has been printed, newest first.
pub record Core0 (E : Type 0) : Type 0 where
  pub env : E
  pub reply_sem : ℕ
  pub last_reply : ℕ
  pub out : List Line

-- `mbox_send` of a word, with the words whose interrupts come in during the call. `sleep` is the
-- wait of `k_sem_take`, when the semaphore is 0: the word whose interrupt ends it, or none within
-- the second that it lasts. Then the calls of the set-up.
pub record Mbox (E : Type 0) : Type 0 where
  pub send : ℕ → E → Ret (Unit {0}) × List ℕ × E
  pub sleep : E → Option ℕ × E
  pub device_is_ready : E → Bool
  pub register_callback : E → Ret (Unit {0}) × E
  pub set_enabled : E → Ret (Unit {0}) × E

abbrev pub Run : Type 0 → Type 0 → Type 0
Run E A = Core0 E → Ret A × Core0 E

module _ {E A : Type 0} where
  abbrev pub pure : A → Run E A
  pure a s = (ok a, s)

  abbrev pub fail : ℕ → Run E A
  fail e s = (err e, s)

module _ {E A B : Type 0} where
  -- `if (ret) return ret;`
  abbrev pub and_then : Ret A × Core0 E → (A → Run E B) → Ret B × Core0 E
  and_then (ok a, s) k = k a s
  and_then (err e, s) k = (err e, s)

  infixl 5 ◌>>=◌ ◌>>◌
  abbrev pub ◌>>=◌ : Run E A → (A → Run E B) → Run E B
  m >>= k = λ s. and_then (m s) k

  abbrev pub ◌>>◌ : Run E A → Run E B → Run E B
  m >> n = m >>= λ _. n

module _ {E : Type 0} where
  -- A `shell_print` or `shell_error`.
  abbrev pub say : Line → Core0 E → Core0 E
  say l s = record s { out = l ∷ s.out }

  abbrev pub print : Line → Run E (Unit {0})
  print l s = (ok tt, say l s)

  -- `k_sem_give` with the limit 1 of `k_sem_init`.
  unfoldable pub mbox_cb : ℕ → Core0 E → Core0 E
  mbox_cb word s = record s { last_reply = word; reply_sem = min 1 (suc s.reply_sem) }

  unfoldable pub interrupts : List ℕ → Core0 E → Core0 E
  interrupts [] s = s
  interrupts (word ∷ words) s = interrupts words (mbox_cb word s)

module _ {E : Type 0} (mbox : Mbox E) where
  unfoldable pub stepper_mbox_init : Run E (Unit {0})
  stepper_mbox_init s =
      let s' : Core0 E = record s { reply_sem = 0 } in
      let (r, e) = mbox.register_callback s.env in
      let (r', e') = mbox.set_enabled e in
      if mbox.device_is_ready s.env
      then elim r [ ok _ ↦ (r', record s' { env = e' }) | err x ↦ (err x, record s' { env = e }) ]
      else (err enodev, s)

  unfoldable pub mbox_send_word : ℕ → Run E (Unit {0})
  mbox_send_word word s =
      let (r, words, e) = mbox.send word s.env in (r, interrupts words (record s { env = e }))

  -- A give that meets a waiting thread wakes it, and leaves the count at 0.
  unfoldable pub woken : Option ℕ → Core0 E → Ret ℕ × Core0 E
  woken none s = (err etimedout, s)
  woken (some word) s = (ok word, record s { last_reply = word })

  unfoldable pub mbox_wait_reply : Run E ℕ
  mbox_wait_reply s =
      let (word, e) = mbox.sleep s.env in
      elim s.reply_sem [
        | suc n ↦ (ok s.last_reply, record s { reply_sem = n })
        | _ ↦ woken word (record s { env = e })
      ]

  unfoldable pub cmd_roundtrip0 : ℕ → Run E ℕ
  cmd_roundtrip0 opcode = mbox_send_word opcode >> mbox_wait_reply

  unfoldable pub cmd_roundtrip1 : ℕ → ℕ → Run E ℕ
  cmd_roundtrip1 opcode payload = mbox_send_word opcode >> mbox_send_word payload >> mbox_wait_reply
