-- ===== src/Core1/Motion/Delay.antt =====
-- `delay_us` against the true time.
use rp2350_zephyr_stepper.Prelude.{
  ℕ, zero, suc, ◌+◌, ◌-◌, ◌%◌, ◌^◌, ◌<◌, ◌≤◌, ◌≡◌, false, Option, none, some, arith, ltb,
  Bool-cases, inl, inr,
}
use rp2350_zephyr_stepper.Core1.Motion.{now_us, delay_loop, delay_us}

-- The loop stops at reading `j`, no earlier than it should and at the first chance.
pub record Waited (timer : ℕ → ℕ) (begin us i j : ℕ) : Type 0 where
  pub after : i ≤ j
  pub enough : begin + us ≤ timer j
  pub first : (k : ℕ) → i ≤ k → k < j → timer k < begin + us

abbrev pub Stops : (timer : ℕ → ℕ) → ℕ → ℕ → ℕ → Option ℕ → Type 0
Stops timer begin us i none = ⊥
Stops timer begin us i (some j) = Waited timer begin us i j

module _ (timer : ℕ → ℕ) (begin us : ℕ) where
  Waited-first :
      (i j k : ℕ)
      → timer i < begin + us
      → Waited timer begin us (i + 1) j
      → i ≤ k
      → k < j
      → timer k < begin + us
  Waited-first i j k h w lo hi = elim (Bool-cases (ltb i k)) [
    | inl later ↦ w.first k (ground arith) hi
    | inr same ↦ let e : i ≡ k = ground arith in rw e at h
  ]

  Stops-step :
      (i : ℕ) (o : Option ℕ)
      → timer i < begin + us
      → Stops timer begin us (i + 1) o
      → Stops timer begin us i o
  Stops-step i none h s = s
  Stops-step i (some j) h s = record {
    after = omega arith;
    enough = s.enough;
    first = λ k lo hi. Waited-first i j k h s lo hi;
  }

  Stops-here : (i : ℕ) → begin + us ≤ timer i → Stops timer begin us i (some i)
  Stops-here i h = record {
    after = omega arith;
    enough = h;
    first = λ k lo hi. absurd (omega arith);
  }

  -- The unsigned difference is the time that has passed.
  elapsed :
      (i : ℕ)
      → begin ≤ timer i
      → timer i < begin + 2 ^ 32
      → (now_us timer i + 2 ^ 32 - begin % 2 ^ 32) % 2 ^ 32 ≡ timer i - begin
  unfolding now_us
  elapsed i h k = omega arith

module _ (timer : ℕ → ℕ) (gap us : ℕ)
    (ticks : (i : ℕ) → (timer i ≤ timer (i + 1)) × (timer (i + 1) ≤ timer i + gap))
    (short : us + gap < 2 ^ 32) where
  delay_loop-Stops :
      (n begin i : ℕ)
      → begin ≤ timer i
      → timer i < begin + 2 ^ 32
      → begin + us ≤ timer (i + n)
      → Stops timer begin us i (delay_loop timer (suc n) (begin % 2 ^ 32) us i)
  unfolding delay_loop
  delay_loop-Stops zero begin i lo hi late =
      let late' : begin + us ≤ timer i = (let e : i + 0 ≡ i = omega arith in rw e at late) in
      let done : ltb (timer i - begin) us ≡ false = ground arith in
      rw (elapsed timer begin us i lo hi, done) (Stops-here timer begin us i late')
  delay_loop-Stops (suc n) begin i lo hi late = elim (Bool-cases (ltb (timer i - begin) us)) [
    | inl more ↦
        let late' : begin + us ≤ timer (i + 1 + n) =
          (let e : i + suc n ≡ i + 1 + n = omega arith in rw e at late) in
        rw (elapsed timer begin us i lo hi, more)
          (Stops-step timer begin us i (delay_loop timer (suc n) (begin % 2 ^ 32) us (i + 1))
            (ground arith)
            (delay_loop-Stops n begin (i + 1) (ground (arith, ticks i)) (ground (arith, ticks i))
              late'))
    | inr done ↦
        rw (elapsed timer begin us i lo hi, done) (Stops-here timer begin us i (ground arith))
  ]

  -- On a timer that does not run backwards and advances by at most `gap` between two readings,
  -- with us + gap < 2^32, delay_us ends, at the first reading that is at least us microseconds
  -- after its start, also where the 32-bit register wraps around, if the timer gets that far
  -- within the fuel.
  pub delay_us-Waited :
      (n i : ℕ)
      → timer i + us ≤ timer (i + 1 + n)
      → Stops timer (timer i) us (i + 1) (delay_us timer (suc n) us i)
  unfolding delay_us now_us
  delay_us-Waited n i late =
      delay_loop-Stops n (timer i) (i + 1) (ground (arith, ticks i)) (ground (arith, ticks i)) late
