-- ===== src/Core1/Start.antt =====
-- Before core1's main program: the reset handler (core1/start.c) and the vector table
-- (core1/vectors.c). The addresses that the linker decides are parameters.
pub mod Bss
use rp2350_zephyr_stepper.Prelude.{
  ℕ, zero, suc, ◌+◌, Option, none, some, List, [], ◌∷◌, ltb, ◌==◌, if◌then◌else◌, bit_or,
}

-- The RAM by word address, and the coprocessor access register of this core.
pub record Memory : Type 0 where
  pub word : ℕ → ℕ
  pub m33_cpacr : ℕ

-- M33_CPACR_CP10_BITS
abbrev pub m33_cpacr_cp10_bits : ℕ
m33_cpacr_cp10_bits = 0x0030_0000

unfoldable pub store : ℕ → ℕ → Memory → Memory
store p v mem = record mem { word = λ a. if a == p then v else mem.word a }

unfoldable pub fpu_enable : Memory → Memory
fpu_enable mem = record mem { m33_cpacr = bit_or mem.m33_cpacr m33_cpacr_cp10_bits }

-- `for (p = &__bss_start__; p < &__bss_end__; p++) *p = 0;`
unfoldable pub clear_bss : ℕ → ℕ → ℕ → Memory → Option Memory
unfolding store
clear_bss zero p end mem = none
clear_bss (suc fuel) p end mem =
    if ltb p end then clear_bss fuel (p + 4) end (store p 0 mem) else some mem

-- The handler, up to its call of `core1_main`.
unfoldable pub core1_reset_handler : ℕ → ℕ → ℕ → Memory → Option Memory
unfolding clear_bss fpu_enable
core1_reset_handler fuel bss_start bss_end mem = elim (clear_bss fuel bss_start bss_end mem) [
  | none ↦ none
  | some mem' ↦ some (fpu_enable mem')
]

unfoldable pub vector_table : ℕ → ℕ → ℕ → List ℕ
vector_table stack_top reset_handler default_handler =
    stack_top ∷ reset_handler ∷ default_handler ∷ default_handler ∷ default_handler
    ∷ default_handler ∷ default_handler ∷ default_handler ∷ 0 ∷ 0 ∷ 0 ∷ default_handler
    ∷ default_handler ∷ 0 ∷ default_handler ∷ default_handler ∷ []
