-- ===== src/Addresses/Range.antt =====
-- The loops of GetAvailableIPRange and GetAvailableIP in src/joebot/sshconnect/cfg.go.
use joebot.Prelude.{
  ℕ, zero, suc, ◌+◌, ◌%◌, ◌<◌, ◌≡◌, refl, ap, ◌∙◌, none, some, List, [], ◌∷◌, map, arith, le→leb,
  gt→leb, GoString,
}
use native.Mathlib.Nat.{mod-eq_of_lt}
use joebot.Addresses.{
  Net, signed, range_loop, available_loop, text_of, ip_to_int, get_available_ip_range,
}

-- `n` numbers of 32 bits from `first` on.
abbrev pub consecutive : ℕ → ℕ → List ℕ
consecutive first zero = []
consecutive first (suc n) = first ∷ consecutive ((first + 1) % 4294967296) n

-- With fuel for each number and one round more, the loop ends and gives every address from the
-- first to the last, unless the last is 127.255.255.255, the greatest int32.
pub range_loop_ends :
    (n fuel num last : ℕ)
    → num < 4294967296
    → signed last < 4294967295
    → signed num + n ≡ signed last + 1
    → n < fuel
    → range_loop fuel num last ≡ some (consecutive num n)
unfolding range_loop
range_loop_ends n zero num last h k e f = absurd (omega arith)
range_loop_ends zero (suc fuel) num last h k e f =
    rw (gt→leb (signed num) (signed last) (omega arith)) refl
range_loop_ends (suc n) (suc fuel) num last h k e f =
    let next : signed ((num + 1) % 4294967296) + n ≡ signed last + 1 = omega (arith, e, k, h) in
    rw
      (
        le→leb (signed num) (signed last) (omega arith),
        range_loop_ends n fuel ((num + 1) % 4294967296) last (omega arith) k next (omega arith),
      )
      refl

-- From a first address beyond the last as an int32 the loop gives nothing.
pub range_loop_empty :
    (fuel num last : ℕ) → signed last < signed num → range_loop (suc fuel) num last ≡ some []
unfolding range_loop
range_loop_empty fuel num last h = rw (gt→leb (signed num) (signed last) h) refl

-- No fuel is enough when the last address is 127.255.255.255: every int32 is at most that, so the
-- test of the loop never fails.
pub range_loop_endless :
    (fuel num last : ℕ) → signed last ≡ 4294967295 → range_loop fuel num last ≡ none
unfolding range_loop
range_loop_endless zero num last e = refl
range_loop_endless (suc fuel) num last e =
    rw
      (
        le→leb (signed num) (signed last) (omega arith),
        range_loop_endless fuel ((num + 1) % 4294967296) last e,
      )
      refl

-- GetAvailableIP gives the `max` addresses that follow the network's own, in order.
pub available_loop_lem :
    (todo ip_num step max : ℕ)
    → step + todo ≡ max + 1
    → available_loop todo ip_num step max ≡ consecutive ((ip_num + step) % 4294967296) todo
unfolding available_loop
available_loop_lem zero ip_num step max e = refl
available_loop_lem (suc zero) ip_num step max e = refl
available_loop_lem (suc (suc todo)) ip_num step max e =
    let small : step < max = omega arith in
    rw (mod-eq_of_lt small) (
      ap (λ t. ((ip_num + step) % 4294967296) ∷ t)
        (available_loop_lem (suc todo) ip_num (step + 1) max (omega arith)
          ∙ ap (λ v. consecutive v (suc todo)) (omega arith)))

module _ (net : Net) (first last : GoString) (first_ip last_ip : List ℕ) (a b : ℕ)
    (parsed_first : net.parse_ip4 first ≡ some first_ip)
    (parsed_last : net.parse_ip4 last ≡ some last_ip) (first_is : ip_to_int first_ip ≡ some a)
    (last_is : ip_to_int last_ip ≡ some b) where
  -- Of two texts that are IPv4 addresses a and b, the range gives every address from a to b, once
  -- and in order, when a is not beyond b as an int32 and b is not 127.255.255.255; fuel for each
  -- and one round more is enough.
  pub get_available_ip_range_lem :
      (fuel n : ℕ)
      → a < 4294967296
      → signed b < 4294967295
      → signed a + n ≡ signed b + 1
      → n < fuel
      → get_available_ip_range net fuel first last ≡ some (map text_of (consecutive a n))
  unfolding get_available_ip_range
  get_available_ip_range_lem fuel n small below e enough =
      rw
        (
          parsed_first,
          parsed_last,
          first_is,
          last_is,
          range_loop_ends n fuel a b small below e enough,
          get_available_ip_range,
        )
        refl

  -- A range of two IPv4 addresses that ends at 127.255.255.255 makes the loop run for ever: no
  -- fuel is enough.
  pub get_available_ip_range_endless :
      (fuel : ℕ) → signed b ≡ 4294967295 → get_available_ip_range net fuel first last ≡ none
  unfolding get_available_ip_range
  get_available_ip_range_endless fuel e =
      rw
        (
          parsed_first,
          parsed_last,
          first_is,
          last_is,
          range_loop_endless fuel a b e,
          get_available_ip_range,
        )
        refl

  -- A range whose first address is beyond the last as an int32 is empty: so is each from an address
  -- below 128.0.0.0 to one that is not.
  pub get_available_ip_range_empty :
      (fuel : ℕ) → signed b < signed a → get_available_ip_range net (suc fuel) first last ≡ some []
  unfolding get_available_ip_range
  get_available_ip_range_empty fuel h =
      rw
        (
          parsed_first,
          parsed_last,
          first_is,
          last_is,
          range_loop_empty fuel a b h,
          get_available_ip_range,
        )
        refl
