-- ===== src/Core0/Hostname/Unique.antt =====
-- Boards whose addresses differ in the last two bytes get different names (src/mdns_service.c).
use rp2350_zephyr_stepper.Prelude.{
  length-append, ℕ, zero, suc, ◌+◌, ◌-◌, ◌/◌, ◌%◌, ◌<◌, ◌≤◌, ◌≡◌, refl, sym, ap, ◌∙◌, some, List,
  [], ◌∷◌, ◌++◌, ltb, take, drop, length, get_or, arith, false,
}
use rp2350_zephyr_stepper.Core0.Hostname.{Names, hex_digit, hex_byte, named, set_unique_hostname}

drop-append : (base ys : List ℕ) → drop (length base) (base ++ ys) ≡ ys
drop-append [] ys = refl
drop-append (x ∷ base) ys = drop-append base ys

take-all : (xs : List ℕ) (n : ℕ) → length xs ≡ n → take n xs ≡ xs
take-all [] zero h = refl
take-all [] (suc n) h = refl
take-all (x ∷ xs) zero h = absurd (omega arith)
take-all (x ∷ xs) (suc n) h = ap (λ l. x ∷ l) (take-all xs n (omega arith))

hex_digit-inj : (a b : ℕ) → a < 16 → b < 16 → hex_digit a ≡ hex_digit b → a ≡ b
hex_digit-inj a b h k e = ground arith

hex_byte-inj :
    (a b : ℕ)
    → a < 256
    → b < 256
    → hex_digit (a / 16) ≡ hex_digit (b / 16)
    → hex_digit (a % 16) ≡ hex_digit (b % 16)
    → a ≡ b
hex_byte-inj a b h k e f =
    let hi = hex_digit-inj (a / 16) (b / 16) (omega arith) (omega arith) e in
    let lo = hex_digit-inj (a % 16) (b % 16) (omega arith) (omega arith) f in omega (arith, hi, lo)

-- The second to last and the last byte of an address.
abbrev pub last_two : List ℕ → ℕ × ℕ
last_two addr = (get_or addr (length addr - 2) 0, get_or addr (length addr - 1) 0)

abbrev pub suffix : ℕ × ℕ → List ℕ
suffix (a, b) = hex_byte a ++ hex_byte b

pub set_unique_hostname-id :
    (base addr : List ℕ) (s : Names)
    → 2 ≤ length addr
    → (set_unique_hostname base (some (some addr)) s).stepper_id ≡ base ++ suffix (last_two addr)
unfolding set_unique_hostname named
set_unique_hostname-id base addr s h =
    let long : ltb (length addr) 2 ≡ false = ground arith in
    let fits : length (base ++ suffix (last_two addr)) ≡ length base + 4 + 1 - 1 =
      omega (arith, length-append base (suffix (last_two addr))) in
    rw long (take-all (base ++ suffix (last_two addr)) (length base + 4 + 1 - 1) fits)

-- Two boards with the same configured name and link addresses of at least two bytes get the same
-- host name only if the last two bytes of their addresses are the same.
pub set_unique_hostname-inj :
    (base addr addr' : List ℕ) (s s' : Names)
    → 2 ≤ length addr
    → 2 ≤ length addr'
    → (last_two addr).0 < 256
    → (last_two addr).1 < 256
    → (last_two addr').0 < 256
    → (last_two addr').1 < 256
    → (set_unique_hostname base (some (some addr)) s).stepper_id
      ≡ (set_unique_hostname base (some (some addr')) s').stepper_id
    → last_two addr ≡ last_two addr'
set_unique_hostname-inj base addr addr' s s' h h' a b a' b' e =
    let x = suffix (last_two addr) in
    let y = suffix (last_two addr') in
    let same : base ++ x ≡ base ++ y =
      sym (set_unique_hostname-id base addr s h) ∙ e ∙ set_unique_hostname-id base addr' s' h' in
    let tails : x ≡ y =
      sym (drop-append base x) ∙ ap (drop (length base)) same ∙ drop-append base y in
    let digit : (i : ℕ) → get_or x i 0 ≡ get_or y i 0 = λ i. ap (λ l. get_or l i 0) tails in
    let first = hex_byte-inj (last_two addr).0 (last_two addr').0 a a' (digit 0) (digit 1) in
    let second = hex_byte-inj (last_two addr).1 (last_two addr').1 b b' (digit 2) (digit 3) in
    cc (first, second)
