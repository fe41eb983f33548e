-- ===== src/Core1/Start/Bss.antt =====
-- The loop of the reset handler (core1/start.c) against the memory that it should leave.
use rp2350_zephyr_stepper.Prelude.{
  ℕ, zero, suc, ◌+◌, ◌-◌, ◌*◌, ◌%◌, ◌<◌, ◌≤◌, ◌≡◌, Bool, false, ◌&&◌, Option, none, some, arith, ap,
  ◌∙◌, ltb, leb, ◌==◌, if◌then◌else◌, Bool-cases, inl, inr,
}
use rp2350_zephyr_stepper.Core1.Start.{Memory, store, fpu_enable, clear_bss, core1_reset_handler}

-- The address is one of the words from `start` below `end`.
abbrev pub is_bss : ℕ → ℕ → ℕ → Bool
is_bss start end a = leb start a && ltb a end && (a - start) % 4 == 0

-- The word at an address, after a run that has ended.
abbrev pub word_at : ℕ → Option Memory → Option ℕ
word_at a none = none
word_at a (some mem) = some (mem.word a)

is_bss-next :
    (start end a w : ℕ)
    → start < end
    → (if is_bss (start + 4) end a then 0 else if a == start then 0 else w)
      ≡ (if is_bss start end a then 0 else w)
is_bss-next start end a w h = ground arith

is_bss-over : (start end a w : ℕ) → end ≤ start → w ≡ (if is_bss start end a then 0 else w)
is_bss-over start end a w h = ground arith

clear_bss-word :
    (rounds start end : ℕ) (mem : Memory) (a : ℕ)
    → end ≤ start + 4 * rounds
    → word_at a (clear_bss (suc rounds) start end mem)
      ≡ some (if is_bss start end a then 0 else mem.word a)
unfolding clear_bss store
clear_bss-word zero start end mem a h =
    let done : ltb start end ≡ false = ground arith in
    rw done (ap some (is_bss-over start end a (mem.word a) (omega arith)))
clear_bss-word (suc n) start end mem a h = elim (Bool-cases (ltb start end)) [
  | inl more ↦
      let rest = clear_bss-word n (start + 4) end (store start 0 mem) a (omega arith) in
      rw more (rest ∙ ap some (is_bss-next start end a (mem.word a) (ground arith)))
  | inr done ↦ rw done (ap some (is_bss-over start end a (mem.word a) (ground arith)))
]

-- With one round for each word of the bss section and one more, the reset handler comes to its
-- call of core1_main, with 0 in each word of that section and every other word as it was.
pub core1_reset_handler-word :
    (rounds start end : ℕ) (mem : Memory) (a : ℕ)
    → end ≤ start + 4 * rounds
    → word_at a (core1_reset_handler (suc rounds) start end mem)
      ≡ some (if is_bss start end a then 0 else mem.word a)
unfolding core1_reset_handler fpu_enable
core1_reset_handler-word rounds start end mem a h =
    enabled (clear_bss (suc rounds) start end mem) (clear_bss-word rounds start end mem a h)
  where
    enabled :
        (o : Option Memory) {w : Option ℕ}
        → word_at a o ≡ w
        → word_at a (elim o [ none ↦ none | some mem' ↦ some (fpu_enable mem') ]) ≡ w
    enabled none e = e
    enabled (some mem') e = e
