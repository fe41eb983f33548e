-- ===== src/Core0/Launch/Image.antt =====
-- The launch (src/core1_launch.c) of an image that begins with core1's vector table
-- (core1/vectors.c), up to the call of core1_main in the reset handler (core1/start.c).
use rp2350_zephyr_stepper.Prelude.{
  ℕ, suc, ◌+◌, ◌-◌, ◌*◌, ◌/◌, ◌<◌, ◌≤◌, ◌≡◌, ◌∙◌, ap, true, false, Option, some, List, ◌++◌, arith,
  length, get_or, get_or-append,
}
use rp2350_zephyr_stepper.Core0.Launch.{Chip, Launch, core1_ram_base, cmd_sequence, core1_launch}
use rp2350_zephyr_stepper.Core0.Launch.Handshake.{
  Yields, mono, IsRom, IsEchoed, core1_launch-Yields,
}
use rp2350_zephyr_stepper.Core1.Start.{Memory, vector_table, core1_reset_handler}
use rp2350_zephyr_stepper.Core1.Start.Bss.{is_bss, word_at, core1_reset_handler-word}

-- The RAM of core1 as core1 addresses it.
abbrev pub core1_memory : List ℕ → Memory
core1_memory ram = record { word = λ a. get_or ram ((a - core1_ram_base) / 4) 0; m33_cpacr = 0 }

-- What the linker makes of the vector table and the rest of the program, with the bss section behind
-- it and `rounds` words long at most.
pub record Image : Type 0 where
  pub stack_top : ℕ
  pub reset_handler : ℕ
  pub default_handler : ℕ
  pub code : List ℕ
  pub bss_start : ℕ
  pub bss_end : ℕ

abbrev pub blob_of : Image → List ℕ
blob_of i = vector_table i.stack_top i.reset_handler i.default_handler ++ i.code

-- The memory of core1 when its reset handler calls core1_main.
abbrev pub at_main : ℕ → Image → List ℕ → ℕ → Option ℕ
at_main rounds i ram a =
    word_at a (core1_reset_handler (suc rounds) i.bss_start i.bss_end (core1_memory ram))

module _ (i : Image) (rounds : ℕ) (room : i.bss_end ≤ i.bss_start + 4 * rounds) where
  main-bss :
      (ram : List ℕ) (a : ℕ)
      → is_bss i.bss_start i.bss_end a ≡ true
      → at_main rounds i ram a ≡ some 0
  main-bss ram a h =
      rw h at (core1_reset_handler-word rounds i.bss_start i.bss_end (core1_memory ram) a room)

  main-code :
      (ram : List ℕ) (n : ℕ)
      → core1_ram_base + 4 * n < i.bss_start
      → at_main rounds i ram (core1_ram_base + 4 * n) ≡ some (get_or ram n 0)
  main-code ram n h =
      let a = core1_ram_base + 4 * n in
      let outside : is_bss i.bss_start i.bss_end a ≡ false = ground arith in
      let index : (a - core1_ram_base) / 4 ≡ n = omega arith in
      rw (outside, index) at
        (core1_reset_handler-word rounds i.bss_start i.bss_end (core1_memory ram) a room)

  -- With an image that begins with core1's vector table and whose bss section lies behind its
  -- words, core1_launch comes to its end within 6 w + 7 rounds, and the last six words that it
  -- wrote are 0, 0, 1, the RAM's base, the top of the stack and the address of the reset handler,
  -- each echoed. From the RAM that it leaves, the reset handler comes to its call of core1_main
  -- with every word of the image in its place and 0 in every word of bss, with one round for each
  -- word of bss and one more. Every polling loop of the launch ends within its fuel, and the boot
  -- ROM gives w wrong answers at most.
  pub core1_launch-at_main :
      {E : Type 0} {chip : Chip E} {fuel : ℕ} {wrong : E → ℕ} (rom : IsRom chip fuel wrong)
      (tries : ℕ) (s : Launch E)
      → core1_ram_base + 4 * length (blob_of i) ≤ i.bss_start
      → 6 * wrong s.env + 6 < tries
      → Yields
          (λ _ s'.
            IsEchoed (cmd_sequence core1_ram_base i.stack_top i.reset_handler) 6 s'
            × ((n : ℕ)
                → n < length (blob_of i)
                → at_main rounds i s'.ram (core1_ram_base + 4 * n) ≡ some (get_or (blob_of i) n 0))
            × ((a : ℕ)
                → is_bss i.bss_start i.bss_end a ≡ true
                → at_main rounds i s'.ram a ≡ some 0))
          (core1_launch chip fuel tries (blob_of i) s)
  unfolding vector_table
  core1_launch-at_main rom tries s behind enough =
      mono (core1_launch-Yields rom tries (blob_of i) s enough) λ _ s' h. (
        h.0,
        (λ n l.
            main-code s'.ram n (omega (arith, behind, l))
            ∙ ap some (ap (λ r. get_or r n 0) h.1 ∙ get_or-append (blob_of i) _ n 0 l)),
        main-bss s'.ram,
      )
