-- ===== src/Lan9250/Timestamps/Refs.antt =====
-- The references that the driver holds on packets: one for each slot of `rx_pending` in use.
use rp2350_zephyr_stepper.Prelude.{
  ℕ, zero, suc, ◌+◌, ◌<◌, ◌≡◌, Option, none, some, List, [], ◌∷◌, arith, refl, length, get_or, set,
  Bool-cases, inl, inr, if◌then◌else◌, ◌==◌, leb,
}
use rp2350_zephyr_stepper.Lan9250.World.{
  World, Io, Ret, Pending, Event, pkt_ref, pkt_unref, and_then, log, put_ctx,
}
use rp2350_zephyr_stepper.Lan9250.Keeps.{Keeps}
use rp2350_zephyr_stepper.Lan9250.Yields.{Yields, yields}
use rp2350_zephyr_stepper.Lan9250.Yields
use rp2350_zephyr_stepper.Lan9250.Slots.{expired, kept}
use rp2350_zephyr_stepper.Lan9250.Slots.Target.{length-kept}
use rp2350_zephyr_stepper.Lan9250.Timestamps.{
  pending_deadline, expire_ctx, unref_all, rx_pending_expire,
}

-- Is it the packet `q`?
abbrev pub is_pkt : ℕ → ℕ → ℕ
is_pkt q p = if p == q then 1 else 0

abbrev pub ref_of : ℕ → Event → ℕ
ref_of q (pkt_ref p) = is_pkt q p
ref_of q _ = 0

abbrev pub unref_of : ℕ → Event → ℕ
unref_of q (pkt_unref p) = is_pkt q p
unref_of q _ = 0

-- How often a reference on the packet `q` was taken, and how often one was given back.
abbrev pub refs : ℕ → List Event → ℕ
refs q [] = 0
refs q (e ∷ es) = ref_of q e + refs q es

abbrev pub unrefs : ℕ → List Event → ℕ
unrefs q [] = 0
unrefs q (e ∷ es) = unref_of q e + unrefs q es

-- The slots that hold the packet.
abbrev pub holds : ℕ → Option Pending → ℕ
holds q none = 0
holds q (some p) = is_pkt q p.pkt

abbrev pub held : ℕ → List (Option Pending) → ℕ
held q [] = 0
held q (o ∷ slots) = holds q o + held q slots

-- The references taken are those given back and those of the slots.
abbrev pub IsBalanced : {E : Type 0} → ℕ → World E → Type 0
IsBalanced q w =
    (refs q w.trace ≡ unrefs q w.trace + held q w.ctx.rx_pending) × (0 < length w.ctx.rx_pending)

-- A function that keeps the balance, whatever it returns.
abbrev pub IsKeeping : {E A : Type 0} → ℕ → Io E A → Type 0
IsKeeping q m = Keeps (IsBalanced q) m

module _ (q : ℕ) where
  pub held-set :
      (slots : List (Option Pending)) (i : ℕ) (o : Option Pending)
      → i < length slots
      → held q (set slots i o) + holds q (get_or slots i none) ≡ held q slots + holds q o
  held-set [] i o h = elim h [ ]
  held-set (b ∷ slots) zero o h = omega arith
  held-set (b ∷ slots) (suc i) o h = omega (arith, held-set slots i o (omega arith))

  abbrev among : List Pending → ℕ
  among [] = 0
  among (p ∷ ps) = is_pkt q p.pkt + among ps

  held-kept :
      (now : ℕ) (slots : List (Option Pending))
      → held q slots
        ≡ held q (kept pending_deadline now slots) + among (expired pending_deadline now slots)
  unfolding kept expired
  held-kept now [] = omega arith
  held-kept now (none ∷ slots) = omega (arith, held-kept now slots)
  held-kept now (some p ∷ slots) = elim (Bool-cases (leb (pending_deadline p) now)) [
    | inl gone ↦ rw gone (omega (arith, held-kept now slots))
    | inr stays ↦ rw stays (omega (arith, held-kept now slots))
  ]

  module _ {E : Type 0} where
    unref_all-Yields :
        (ps : List Pending) (w : World E)
        → Yields
            (λ _ w'.
              (refs q w'.trace ≡ refs q w.trace)
              × (unrefs q w'.trace ≡ among ps + unrefs q w.trace)
              × (w'.ctx ≡ w.ctx))
            (unref_all ps w)
    unfolding unref_all
    unref_all-Yields [] w = yields (refl, omega arith, refl)
    unref_all-Yields (p ∷ ps) w =
        Yields.mono (unref_all-Yields ps (log (pkt_unref p.pkt) w))
          λ _ w' h. (omega (arith, h.0), omega (arith, h.1), h.2)

    put_expired :
        (now : ℕ) (w : World E) (r : Ret (Unit {0}) × World E)
        → IsBalanced q w
        → Yields
            (λ _ w'.
              (refs q w'.trace ≡ refs q w.trace)
              × (unrefs q w'.trace
                  ≡ among (expired pending_deadline now w.ctx.rx_pending) + unrefs q w.trace)
              × (w'.ctx ≡ w.ctx))
            r
        → IsBalanced q (and_then r (λ _. put_ctx (expire_ctx now w.ctx))).1
    unfolding expire_ctx
    put_expired now w r b (yields h) = (
      omega (arith, b.0, h.0, h.1, held-kept now w.ctx.rx_pending),
      omega (arith, b.1, length-kept pending_deadline now w.ctx.rx_pending),
    )

    pub rx_pending_expire-IsKeeping : (now : ℕ) → IsKeeping {E = E} q (rx_pending_expire now)
    unfolding rx_pending_expire
    rx_pending_expire-IsKeeping now = record {
      keeps = λ w b.
          put_expired now w (unref_all (expired pending_deadline now w.ctx.rx_pending) w) b
            (unref_all-Yields (expired pending_deadline now w.ctx.rx_pending) w);
    }
