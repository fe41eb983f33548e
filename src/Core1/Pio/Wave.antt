-- ===== src/Core1/Pio/Wave.antt =====
-- The wave that a word of the TX FIFO makes on the STEP pin (core1/stepper.pio).
use rp2350_zephyr_stepper.Prelude.{
  ℕ, zero, suc, ◌+◌, ◌*◌, ◌-◌, ◌^◌, ◌≡◌, refl, ap, ◌∙◌, Bool, true, false, List, [], ◌∷◌, ◌++◌,
  replicate, arith,
}
use rp2350_zephyr_stepper.Core1.Pio.{Machine, high_loop, low_loop, execute, cycle, run}

run-add : (m n : ℕ) (p : Machine) → run (m + n) p ≡ run n (run m p)
unfolding run
run-add zero n p = let e : 0 + n ≡ n = omega arith in rw e refl
run-add (suc m) n p = let e : suc m + n ≡ suc (m + n) = omega arith in rw e (run-add m n (cycle p))

replicate-shift :
    {A : Type 0} (n : ℕ) (a : A) (l : List A) → replicate n a ++ (a ∷ l) ≡ a ∷ (replicate n a ++ l)
replicate-shift zero a l = refl
replicate-shift (suc n) a l = ap (λ k. a ∷ k) (replicate-shift n a l)

-- The machine in a loop, and behind it.
abbrev looping : ℕ → ℕ → Machine → Machine
looping pc n m = record m { pc = pc; x = n }

run-high_loop :
    (n : ℕ) (m : Machine)
    → run (suc n) (looping high_loop n m)
      ≡ record m { pc = 4; x = 2 ^ 32 - 1; levels = replicate (suc n) true ++ m.levels }
unfolding run cycle execute
run-high_loop zero m = refl
run-high_loop (suc n) m =
    run-high_loop n (record m { levels = true ∷ m.levels })
    ∙ ap (λ l. record m { pc = 4; x = 2 ^ 32 - 1; levels = l })
        (replicate-shift (suc n) true m.levels)

run-low_loop :
    (n : ℕ) (m : Machine)
    → run (suc n) (looping low_loop n m)
      ≡ record m { pc = 0; x = 2 ^ 32 - 1; levels = replicate (suc n) false ++ m.levels }
unfolding run cycle execute
run-low_loop zero m = refl
run-low_loop (suc n) m =
    run-low_loop n (record m { levels = false ∷ m.levels })
    ∙ ap (λ l. record m { pc = 0; x = 2 ^ 32 - 1; levels = l })
        (replicate-shift (suc n) false m.levels)

-- One pulse, newest level first: low for two cycles, then high and low for w + 2 cycles each.
abbrev pub pulse : ℕ → List Bool → List Bool
pulse w levels =
    replicate (suc (suc w)) false ++ (replicate (suc (suc w)) true ++ (false ∷ false ∷ levels))

-- The machine waits for a word.
abbrev pub idle : List ℕ → Machine → Machine
idle tx m = record m { pc = 0; tx = tx }

run-pulse :
    (w : ℕ) (ws : List ℕ) (m : Machine)
    → run (2 * w + 6) (idle (w ∷ ws) m)
      ≡ record m { pc = 0; x = 2 ^ 32 - 1; y = w; osr = w; tx = ws; levels = pulse w m.levels }
unfolding run cycle execute
run-pulse w ws m =
    let e : 2 * w + 6 ≡ 3 + (suc w + (1 + suc w)) = omega arith in
    let m1 : Machine = record m {
      y = w;
      osr = w;
      tx = ws;
      levels = true ∷ false ∷ false ∷ m.levels;
    } in
    let up : List Bool = replicate (suc w) true ++ m1.levels in
    rw
      (
        e,
        run-add 3 (suc w + (1 + suc w)) (idle (w ∷ ws) m),
        run-add (suc w) (1 + suc w) (looping high_loop w m1),
        run-high_loop w m1,
        run-add 1 (suc w) (record m1 { pc = 4; x = 2 ^ 32 - 1; levels = up }),
      )
      (run-low_loop w (record m1 { levels = false ∷ up })
        ∙ ap (λ l. record m { pc = 0; x = 2 ^ 32 - 1; y = w; osr = w; tx = ws; levels = l })
            (replicate-shift (suc w) false up
              ∙ ap (λ l. replicate (suc (suc w)) false ++ l)
                  (replicate-shift (suc w) true (false ∷ false ∷ m.levels))))

-- The wave of some words, and the cycles that it takes.
abbrev pub wave : List ℕ → List Bool → List Bool
wave [] levels = levels
wave (w ∷ ws) levels = wave ws (pulse w levels)

abbrev pub periods : List ℕ → ℕ
periods [] = 0
periods (w ∷ ws) = 2 * w + 6 + periods ws

-- A state machine at the start of the program with some words in its FIFO takes 2 n + 6 cycles for
-- a word n, empties the FIFO, is back at the start, and makes for each word one pulse on the STEP
-- pin: two cycles low, n + 2 cycles high and n + 2 cycles low.
pub run-wave :
    (ws : List ℕ) (m : Machine)
    → m.pc ≡ 0
    → m.tx ≡ ws
    → ((run (periods ws) m).levels ≡ wave ws m.levels)
      × ((run (periods ws) m).pc ≡ 0)
      × ((run (periods ws) m).tx ≡ [])
unfolding run
run-wave [] m h k = (refl, h, k)
run-wave (w ∷ ws) m h k =
    let start : m ≡ idle (w ∷ ws) m = ground (arith, h, k) in
    let m' : Machine = record m {
      pc = 0;
      x = 2 ^ 32 - 1;
      y = w;
      osr = w;
      tx = ws;
      levels = pulse w m.levels;
    } in
    let e : run (2 * w + 6) m ≡ m' = ap (run (2 * w + 6)) start ∙ run-pulse w ws m in
    rw (run-add (2 * w + 6) (periods ws) m, e) (run-wave ws m' refl refl)
