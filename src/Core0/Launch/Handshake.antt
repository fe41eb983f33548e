-- ===== src/Core0/Launch/Handshake.antt =====
-- The launch handshake (src/core1_launch.c) against a boot ROM that answers.
use rp2350_zephyr_stepper.Prelude.{
  ℕ, zero, suc, ◌+◌, ◌-◌, ◌*◌, ◌<◌, ◌≤◌, ◌≡◌, ◌⊎◌, inl, inr, false, Option, some, List, [], ◌∷◌,
  ◌++◌, arith, refl, ap, ◌∙◌, ltb→lt, length, get_or, ltb, ◌==◌, Bool-cases, drop,
}
use rp2350_zephyr_stepper.Core0.Launch.{
  Chip, Launch, Boot, and_then, core1_ram_base, cmd_sequence, copy_blob, ended, until, wait_until,
  skip_word, read_response, write_word, drained_fifo, drain, core1_reset, drain_and_wake, exchange,
  handshake, core1_launch,
}

-- A run that has come to its end, in a state of which `P` holds.
pub data Yields {E A : Type 0} (P : A → Launch E → Type 0) : Option (A × Launch E) → Type 0 where
  yields : {a : A} {s : Launch E} → P a s → Yields P (some (a, s))

module _ {E A : Type 0} {P : A → Launch E → Type 0} where
  bind :
      {B : Type 0} {Q : B → Launch E → Type 0} {r : Option (A × Launch E)} {k : A → Boot E B}
      → Yields P r
      → ((a : A) (s : Launch E) → P a s → Yields Q (k a s))
      → Yields Q (and_then r k)
  bind (yields p) next = next _ _ p

  pub mono :
      {Q : A → Launch E → Type 0} {r : Option (A × Launch E)}
      → Yields P r
      → ((a : A) (s : Launch E) → P a s → Q a s)
      → Yields Q r
  mono (yields p) weaken = yields (weaken _ _ p)

-- A loop ends within its fuel, and the measure does not grow.
pub record Settles {E : Type 0} (wrong : E → ℕ) (start : ℕ) (o : Option E) : Type 0 where
  pub end : E
  pub ends : o ≡ some end
  pub no_worse : wrong end ≤ start

-- The chip lets each polling loop end within the fuel, and the ROM answers each word with the same
-- word, but for `wrong e` times at most.
pub record IsRom {E : Type 0} (chip : Chip E) (fuel : ℕ) (wrong : E → ℕ) : Type 0 where
  pub stops :
      (e : E) → Settles wrong (wrong e) (until fuel chip.proc1_is_off (chip.set_proc1_off e))
  pub starts : (e : E) → Settles wrong (wrong e) (until fuel chip.fifo_vld (chip.clear_proc1_off e))
  pub reads : (e : E) → wrong (chip.fifo_rd e).1 ≤ wrong e
  pub drains : (e : E) → Settles wrong (wrong e) (drained_fifo chip fuel e)
  pub wakes : (e : E) → wrong (chip.sev e) ≤ wrong e
  pub takes : (e : E) → Settles wrong (wrong e) (until fuel chip.fifo_rdy e)
  pub responds :
      (cmd : ℕ) (e : E)
      → Settles wrong (wrong e) (until fuel chip.fifo_vld (chip.sev (chip.fifo_wr cmd e)))
  pub echoes :
      (cmd : ℕ) (e e' : E)
      → until fuel chip.fifo_vld (chip.sev (chip.fifo_wr cmd e)) ≡ some e'
      → ((chip.fifo_rd e').0 ≡ cmd) ⊎ (wrong (chip.fifo_rd e').1 < wrong e)

-- The first words of a sequence, newest first.
abbrev pub newest : List ℕ → ℕ → List ℕ
newest sequence zero = []
newest sequence (suc n) = get_or sequence n 0 ∷ newest sequence n

-- The last `n` words written are the first `n` of the sequence, each with itself as the response.
pub record IsEchoed {E : Type 0} (sequence : List ℕ) (n : ℕ) (s : Launch E) : Type 0 where
  pub old_written : List ℕ
  pub old_responses : List ℕ
  pub writes : s.written ≡ newest sequence n ++ old_written
  pub answers : s.responses ≡ newest sequence n ++ old_responses

module _ {E : Type 0} {chip : Chip E} {fuel : ℕ} {wrong : E → ℕ} (rom : IsRom chip fuel wrong) where
  -- What an exchange leaves behind.
  record IsExchanged (cmd : ℕ) (s : Launch E) (resp : ℕ) (s' : Launch E) : Type 0 where
    wrote : s'.written ≡ cmd ∷ s.written
    got : s'.responses ≡ resp ∷ s.responses
    ram_kept : s'.ram ≡ s.ram
    no_worse : wrong s'.env ≤ wrong s.env
    echoed : (resp ≡ cmd) ⊎ (wrong s'.env < wrong s.env)

  drain_and_wake-Settles :
      (cmd : ℕ) (s : Launch E)
      → (e : E) × (drain_and_wake chip fuel cmd s ≡ some (tt, record s { env = e }))
        × (wrong e ≤ wrong s.env)
  unfolding drain_and_wake drain ended
  drain_and_wake-Settles cmd s = elim (Bool-cases (cmd == 0)) [
    | inl zero_word ↦
        let d = rom.drains s.env in
        let w = rom.wakes d.end in
        (chip.sev d.end, rw (zero_word, d.ends) refl, omega (arith, d.no_worse))
    | inr other ↦ (s.env, rw other refl, omega arith)
  ]

  exchange-Yields : (cmd : ℕ) (s : Launch E) → Yields (IsExchanged cmd s) (exchange chip fuel cmd s)
  unfolding exchange wait_until ended write_word read_response
  exchange-Yields cmd s =
      let (e1, p1, q1) = drain_and_wake-Settles cmd s in
      let t = rom.takes e1 in
      let r = rom.responds cmd t.end in
      let x = rom.echoes cmd t.end r.end r.ends in
      let k = rom.reads r.end in
      let worse : wrong (chip.fifo_rd r.end).1 ≤ wrong s.env =
        omega (arith, t.no_worse, r.no_worse) in
      let same_or_less : ((chip.fifo_rd r.end).0 ≡ cmd)
          ⊎ (wrong (chip.fifo_rd r.end).1 < wrong s.env) =
        elim x [ inl same ↦ inl same | inr less ↦ inr (omega (arith, t.no_worse)) ] in
      rw (p1, t.ends, r.ends)
        (yields (record {
          wrote = refl;
          got = refl;
          ram_kept = refl;
          no_worse = worse;
          echoed = same_or_less;
        }))

  module _ (vector_table sp entry : ℕ) where
    abbrev pub sequence : List ℕ
    sequence = cmd_sequence vector_table sp entry

    -- The handshake is at its end, with the whole sequence echoed.
    pub record IsLaunched (s s' : Launch E) : Type 0 where
      pub echoed : IsEchoed sequence 6 s'
      pub ram_same : s'.ram ≡ s.ram

    echo-IsEchoed :
        (n resp : ℕ) (s s' : Launch E)
        → IsEchoed sequence n s
        → IsExchanged (get_or sequence n 0) s resp s'
        → resp ≡ get_or sequence n 0
        → IsEchoed sequence (suc n) s'
    echo-IsEchoed n resp s s' i x e = record {
      old_written = i.old_written;
      old_responses = i.old_responses;
      writes = x.wrote ∙ ap (λ l. get_or sequence n 0 ∷ l) i.writes;
      answers = x.got ∙ rw e (ap (λ l. get_or sequence n 0 ∷ l) i.answers);
    }

    fresh-IsEchoed : (s : Launch E) → IsEchoed sequence 0 s
    fresh-IsEchoed s = record {
      old_written = s.written;
      old_responses = s.responses;
      writes = refl;
      answers = refl;
    }

    less :
        (n resp : ℕ) (s s' : Launch E)
        → IsExchanged (get_or sequence n 0) s resp s'
        → (get_or sequence n 0 == resp) ≡ false
        → wrong s'.env < wrong s.env
    less n resp s s' x other = ground (arith, x.echoed)

    ram-kept :
        (s s' : Launch E) {r : Option (Unit {0} × Launch E)}
        → s'.ram ≡ s.ram
        → Yields (λ _. IsLaunched s') r
        → Yields (λ _. IsLaunched s) r
    ram-kept s s' e y = mono y (λ _ s'' l. record { echoed = l.echoed; ram_same = l.ram_same ∙ e })

    handshake-Yields :
        (rounds n : ℕ) (s : Launch E)
        → IsEchoed sequence n s
        → n ≤ 6
        → 6 * wrong s.env + (6 - n) < rounds
        → Yields (λ _. IsLaunched s) (handshake chip fuel rounds sequence n s)
    unfolding handshake
    handshake-Yields zero n s i h k = absurd (omega arith)
    handshake-Yields (suc rounds) n s i h k = elim (Bool-cases (ltb n 6)) [
      | inl more ↦ rw more (
          bind (exchange-Yields (get_or sequence n 0) s) (λ resp s' x.
            elim (Bool-cases (get_or sequence n 0 == resp)) [
              | inl same ↦
                  let echoed = echo-IsEchoed n resp s s' i x (ground arith) in
                  let enough : 6 * wrong s'.env + (6 - suc n) < rounds =
                    ground (arith, x.no_worse, ltb→lt n 6 more) in
                  rw same (
                    ram-kept s s' x.ram_kept (
                      handshake-Yields rounds (suc n) s' echoed (ground (arith, ltb→lt n 6 more))
                        enough))
              | inr other ↦
                  let enough : 6 * wrong s'.env + (6 - 0) < rounds =
                    ground (arith, less n resp s s' x other, ltb→lt n 6 more) in
                  rw other (
                    ram-kept s s' x.ram_kept
                      (handshake-Yields rounds 0 s' (fresh-IsEchoed s') (omega arith) enough))
            ]))
      | inr done ↦
          let e : n ≡ 6 = ground arith in
          rw done (yields (record { echoed = rw e at i; ram_same = refl }))
    ]

  -- If every polling loop of the launch ends within its fuel, and the boot ROM echoes each word
  -- but for some wrong answers, w at most, core1_launch comes to its end within 6 w + 7 rounds,
  -- with the image in the RAM, and the last six words that it wrote are 0, 0, 1, the RAM's base,
  -- and the first two words of the image, each echoed.
  pub core1_launch-Yields :
      (rounds : ℕ) (blob : List ℕ) (s : Launch E)
      → 6 * wrong s.env + 6 < rounds
      → let image = blob ++ drop (length blob) s.ram in
        Yields
          (λ _ s'.
            IsEchoed (cmd_sequence core1_ram_base (get_or image 0 0) (get_or image 1 0)) 6 s'
            × (s'.ram ≡ image))
          (core1_launch chip fuel rounds blob s)
  unfolding core1_launch core1_reset copy_blob wait_until ended skip_word
  core1_launch-Yields rounds blob s h =
      let image = blob ++ drop (length blob) s.ram in
      let off = rom.stops s.env in
      let on = rom.starts off.end in
      let k = rom.reads on.end in
      let s1 : Launch E = record s { env = (chip.fifo_rd on.end).1; ram = image } in
      let enough : 6 * wrong s1.env + (6 - 0) < rounds = omega (arith, off.no_worse, on.no_worse) in
      rw (off.ends, on.ends)
        (mono
          (handshake-Yields core1_ram_base (get_or image 0 0) (get_or image 1 0) rounds 0 s1
            (fresh-IsEchoed _ _ _ s1) (omega arith) enough)
          (λ _ s' l. (l.echoed, l.ram_same)))
