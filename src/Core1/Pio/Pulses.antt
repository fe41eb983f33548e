-- ===== src/Core1/Pio/Pulses.antt =====
-- The pulses on the STEP pin (core1/stepper.pio) that the step words make.
use rp2350_zephyr_stepper.Prelude.{
  ℕ, zero, suc, ◌+◌, ◌≡◌, refl, ap, ◌∙◌, Bool, true, false, List, [], ◌∷◌, ◌++◌, replicate, length,
  arith, length-append,
}
use rp2350_zephyr_stepper.Core1.Board.{Act, pushed}
use rp2350_zephyr_stepper.Core1.Pio.{Machine, run}
use rp2350_zephyr_stepper.Core1.Pio.Wave.{pulse, wave, periods, run-wave}

-- The rising edges of a wave, newest level first.
abbrev pub rises : List Bool → ℕ
rises [] = 0
rises (true ∷ []) = 0
rises (true ∷ false ∷ l) = suc (rises (false ∷ l))
rises (true ∷ true ∷ l) = rises (true ∷ l)
rises (false ∷ l) = rises l

rises-low : (n : ℕ) (l : List Bool) → rises (replicate n false ++ l) ≡ rises l
rises-low zero l = refl
rises-low (suc n) l = rises-low n l

rises-high : (n : ℕ) (l : List Bool) → rises (replicate (suc n) true ++ (false ∷ l)) ≡ suc (rises l)
rises-high zero l = refl
rises-high (suc n) l = rises-high n l

rises-wave : (ws : List ℕ) (l : List Bool) → rises (wave ws l) ≡ length ws + rises l
rises-wave [] l = omega arith
rises-wave (w ∷ ws) l =
    let high = rises-high (suc w) (false ∷ l) in
    let one : rises (pulse w l) ≡ suc (rises l) = rises-low (suc (suc w)) _ ∙ high in
    omega (arith, rises-wave ws (pulse w l), one)

-- The words in the order in which they were pushed.
abbrev pub in_order : List ℕ → List ℕ
in_order [] = []
in_order (w ∷ ws) = in_order ws ++ (w ∷ [])

length-in_order : (ws : List ℕ) → length (in_order ws) ≡ length ws
length-in_order [] = refl
length-in_order (w ∷ ws) = omega (arith, length-append (in_order ws) (w ∷ []), length-in_order ws)

-- A state machine that has just been started, with some words in its FIFO.
abbrev pub started : List ℕ → Machine
started ws = record { pc = 0; x = 0; y = 0; osr = 0; tx = ws; levels = [] }

-- The pulses that the state machine has made when all the words pushed so far have gone through it.
abbrev pub pulses : List Act → ℕ
pulses acts = let ws = in_order (pushed acts) in rises (run (periods ws) (started ws)).levels

pub pulses-pushed : (acts : List Act) → pulses acts ≡ length (pushed acts)
pulses-pushed acts =
    let ws = in_order (pushed acts) in
    let w = run-wave ws (started ws) refl refl in
    omega (arith, ap rises w.0, rises-wave ws [], length-in_order (pushed acts))
