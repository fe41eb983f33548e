-- ===== src/Core1/BootTests.antt =====
-- The theorem on core1/stepper.pio at a concrete input.
use rp2350_zephyr_stepper.Prelude.{◌≡◌, refl, true, false, [], ◌∷◌}
use rp2350_zephyr_stepper.Core1.Pio.{Machine, run}
use rp2350_zephyr_stepper.Core1.Pio.Wave.{run-wave}

abbrev loaded : Machine
loaded = record { pc = 0; x = 0; y = 0; osr = 0; tx = 1 ∷ 0 ∷ []; levels = [] }

run-wave_example :
    ((run 14 loaded).levels
      ≡ false ∷ false ∷ true ∷ true ∷ false ∷ false ∷ false ∷ false ∷ false ∷ true ∷ true ∷ true
        ∷ false ∷ false ∷ [])
    × ((run 14 loaded).pc ≡ 0)
    × ((run 14 loaded).tx ≡ [])
run-wave_example = run-wave (1 ∷ 0 ∷ []) loaded refl refl
