-- ===== src/Core0/Hostname.antt =====
-- The host name with the last two bytes of the link address (src/mdns_service.c). The interface and
-- its address come from Zephyr; CONFIG_NET_HOSTNAME is the parameter `base`.
pub mod Unique
use rp2350_zephyr_stepper.Prelude.{
  ℕ, suc, ◌+◌, ◌-◌, ◌/◌, ◌%◌, Option, none, some, List, [], ◌∷◌, ◌++◌, ltb, if◌then◌else◌, take,
  length, get_or,
}

-- The static `stepper_id`, up to its terminating 0, and the calls of `net_hostname_set`.
pub record Names : Type 0 where
  pub stepper_id : List ℕ
  pub hostnames : List (List ℕ)

-- `%x` of a digit, and `%02x` of a byte.
abbrev pub hex_digit : ℕ → ℕ
hex_digit n = if ltb n 10 then 48 + n else 87 + n

abbrev pub hex_byte : ℕ → List ℕ
hex_byte b = hex_digit (b / 16) ∷ hex_digit (b % 16) ∷ []

-- What `snprintk` leaves in a buffer of `size` bytes, of which the last is the terminating 0.
abbrev pub snprintk : ℕ → List ℕ → List ℕ
snprintk size text = take (size - 1) text

-- `sizeof(stepper_id)`
abbrev pub stepper_id_size : List ℕ → ℕ
stepper_id_size base = length base + 4 + 1

unfoldable pub named : List ℕ → List ℕ → Names → Names
named base addr s =
    let last = get_or addr (length addr - 1) 0 in
    let text = base ++ (hex_byte (get_or addr (length addr - 2) 0) ++ hex_byte last) in
    let id = snprintk (stepper_id_size base) text in
    record s { stepper_id = id; hostnames = id ∷ s.hostnames }

-- The default interface, if there is one, with its link address, if it has one.
unfoldable pub set_unique_hostname : List ℕ → Option (Option (List ℕ)) → Names → Names
unfolding named
set_unique_hostname base none s = s
set_unique_hostname base (some none) s = s
set_unique_hostname base (some (some addr)) s = if ltb (length addr) 2 then s else named base addr s
