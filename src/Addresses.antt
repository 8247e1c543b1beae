-- ===== src/Addresses.antt =====
-- The lists of IPv4 addresses of src/joebot/sshconnect/cfg.go. An int32 is its pattern of 32 bits,
-- a number below 2^32.
pub mod Words
pub mod Files
pub mod Plain
pub mod Range
use joebot.Prelude.{
  ℕ, zero, suc, ◌+◌, ◌-◌, ◌*◌, ◌/◌, ◌%◌, ◌^◌, ◌≤◌, ◌<◌, ◌≡◌, refl, sym, ap, ◌∙◌, ◌≢◌, ◌↔◌, ◌⊎◌, inl,
  inr, Bool, true, false, not, ◌&&◌, ◌||◌, Option, none, some, List, [], ◌∷◌, ◌++◌, map, arith, ltb,
  leb, ◌==◌, if◌then◌else◌, ==_refl, ==_iff, ltb→lt, lt→ltb, leb→le, Bool-cases, Option-cases,
  some-eq, Result-cases, str_eq, str_eq→eq, str_eq_refl, length, get_elem?, take, drop, replicate,
  All, length-append, All-append, All-left, All-right, length-replicate, take_all, take-append,
  drop-append, count, has, without, count-append, has→count, not_has→count, count-without_self,
  count-without, without_absent, GoString, str, GoError, fault, message, wrap, Result, ok, err,
  wrapped,
}
use mathlib.Core.Option
use joebot.Strings.{
  ℤ, pos, negsuc, split, join, contains, replace_all, trim_right, trim_space, split_two, atoi, itoa,
}

-- What the code asks of Go's net package: an address in 4 bytes, if `net.ParseIP(s).To4()` is not
-- nil; the network and the mask of `net.ParseCIDR`, none on an error; and the number of leading
-- ones of a mask; and `To4` of an IP, none for nil.
pub record Net : Type 0 where
  pub parse_ip4 : GoString → Option (List ℕ)
  pub parse_cidr : GoString → Option (List ℕ × List ℕ)
  pub mask_ones : List ℕ → ℕ
  pub to4 : List ℕ → Option (List ℕ)

infixl 5 ◌>>=◌
abbrev ◌>>=◌ {ℓ κ} : {A : Type ℓ} {B : Type κ} → Option A → (A → Option B) → Option B
none >>= f = none
some a >>= f = f a

-- The order of two int32.
abbrev pub signed : ℕ → ℕ
signed w = (w + 2147483648) % 4294967296

-- `binary.BigEndian.Uint32`; fewer than 4 bytes panic.
abbrev pub be_value : List ℕ → Option ℕ
be_value (a ∷ (b ∷ (c ∷ (d ∷ rest)))) = some (((a * 256 + b) * 256 + c) * 256 + d)
be_value _ = none

unfoldable pub ip_to_int : List ℕ → Option ℕ
ip_to_int ip = be_value ip

unfoldable pub int_to_ip : ℕ → List ℕ
int_to_ip n = (n / 16777216 % 256) ∷ ((n / 65536 % 256) ∷ ((n / 256 % 256) ∷ ((n % 256) ∷ [])))

-- `net.IP.String` of an address in 4 bytes.
unfoldable pub ip_string : List ℕ → GoString
ip_string ip = join 46 (map itoa ip)

-- `^b` of a byte.
abbrev pub complement : ℕ → ℕ
complement b = 255 - b

-- The wrap-around is that of an int32.
unfoldable pub network_size : List ℕ → Option ℕ
network_size mask = Option.map (λ m. (m + 1) % 4294967296) (be_value (map complement mask))

-- A bitwise operation on the low `bits` bits.
unfoldable pub bitwise : (ℕ → ℕ → ℕ) → ℕ → ℕ → ℕ → ℕ
bitwise op zero a b = 0
bitwise op (suc bits) a b = op (a % 2) (b % 2) + 2 * bitwise op bits (a / 2) (b / 2)

unfoldable pub byte_and : ℕ → ℕ → ℕ
unfolding bitwise
byte_and a b = bitwise (λ x y. x * y) 8 a b

unfoldable pub byte_or : ℕ → ℕ → ℕ
unfolding bitwise
byte_or a b = bitwise (λ x y. x + y - x * y) 8 a b

abbrev pub zip_with : (ℕ → ℕ → ℕ) → List ℕ → List ℕ → List ℕ
zip_with f (x ∷ xs) (y ∷ ys) = f x y ∷ zip_with f xs ys
zip_with f _ _ = []

-- The first and the last address of a network; a nil `To4` is indexed, a panic.
unfoldable pub network_range : Net → List ℕ → List ℕ → Option (List ℕ × List ℕ)
unfolding byte_and byte_or
network_range net network_ip mask = do
  ip ← net.to4 network_ip
  some (zip_with byte_and ip mask, zip_with (λ a m. byte_or a (complement m)) ip mask)

-- The loop of GetAvailableIP; `todo` counts the attempts left.
unfoldable pub available_loop : ℕ → ℕ → ℕ → ℕ → List ℕ
available_loop zero ip_num step max = []
available_loop (suc todo) ip_num step max =
    ((ip_num + step) % 4294967296) ∷ available_loop todo ip_num (step % max + 1) max

-- The loop does no attempt when `max` is negative as an int32.
abbrev pub attempts : ℕ → ℕ
attempts max = if ltb max 2147483648 then max else 0

-- The loop of GetAvailableIPRange, on fuel; `none` has run out of it.
unfoldable pub range_loop : ℕ → ℕ → ℕ → Option (List ℕ)
range_loop zero num last = none
range_loop (suc fuel) num last =
    let rest = range_loop fuel ((num + 1) % 4294967296) last in
    if leb (signed num) (signed last) then Option.map (λ t. num ∷ t) rest else some []

-- The octets of a dotted mask; an octet that is no number counts as 0, and each is cut to a byte.
abbrev pub octet : GoString → ℕ
octet v = elim ((atoi v).0) [ pos n ↦ n % 256 | negsuc n ↦ 255 - n % 256 ]

unfoldable pub split_string : GoString → List GoString
split_string s = if contains s (str ",") then split 44 s else split 59 s

abbrev pub text_of : ℕ → GoString
text_of n = ip_string (int_to_ip n)

module _ (net : Net) where
  -- Fewer than four parts panic.
  unfoldable pub ip_mask_string_to_cidr : GoString → Option GoString
  ip_mask_string_to_cidr netmask = elim (map octet (split 46 netmask)) [
    | a ∷ (b ∷ (c ∷ (d ∷ rest))) ↦ some (itoa (net.mask_ones (a ∷ (b ∷ (c ∷ (d ∷ []))))))
    | _ ↦ none
  ]

  unfoldable pub ip_address_to_cidr : GoString → Option GoString
  unfolding ip_mask_string_to_cidr
  ip_address_to_cidr address = elim (contains address (str "/")) [
    | false ↦ some address
    | true ↦ elim (split 47 address) [
      | ip ∷ (mask ∷ rest) ↦
          let dotted = ip_mask_string_to_cidr mask in
          Option.map (λ m. ip ++ (str "/" ++ m))
            (if contains mask (str ".") then dotted else some mask)
      | _ ↦ none
    ]
  ]

  -- The numbers of the addresses of a network; an error of ParseCIDR is dropped and its nil
  -- network panics.
  unfoldable pub available_numbers : GoString → Option (List ℕ)
  unfolding ip_address_to_cidr available_loop network_range network_size ip_to_int
  available_numbers ip_and_mask = do
    cidr ← ip_address_to_cidr (trim_space ip_and_mask)
    (ip, mask) ← net.parse_cidr cidr
    (first_ip, last_ip) ← network_range net ip mask
    ip_num ← ip_to_int first_ip
    size ← network_size mask
    let max = (size + 4294967294) % 4294967296
    some (available_loop (attempts max) ip_num 1 max)

  unfoldable pub get_available_ip : GoString → Option (List GoString)
  unfolding available_numbers
  get_available_ip ip_and_mask = Option.map (λ l. map text_of l) (available_numbers ip_and_mask)

  unfoldable pub get_available_ip_range : ℕ → GoString → GoString → Option (List GoString)
  unfolding range_loop ip_to_int
  get_available_ip_range fuel ip_start ip_end = elim (net.parse_ip4 ip_start) [
    | none ↦ some []
    | some first_ip ↦ elim (net.parse_ip4 ip_end) [
      | none ↦ some []
      | some end_ip ↦ (do
        num ← ip_to_int first_ip
        last ← ip_to_int end_ip
        l ← range_loop fuel num last
        some (map text_of l))
    ]
  ]

  -- ParseIp once the `/` at the end are taken off.
  unfoldable pub parse_trimmed : ℕ → GoString → Option (List GoString)
  unfolding get_available_ip get_available_ip_range
  parse_trimmed fuel ip = elim (contains ip (str "/")) [
    | true ↦ elim (contains ip (str "/32")) [
      | true ↦ some (replace_all ip (str "/32") ∷ [])
      | false ↦ get_available_ip ip
    ]
    | false ↦ elim (contains ip (str "-")) [
      | false ↦ some (ip ∷ [])
      | true ↦
          let (before, rest) = split_two 45 ip in
          elim rest [ none ↦ none | some after ↦ get_available_ip_range fuel before after ]
    ]
  ]

  -- `none` is a panic, or a range on which the fuel ran out.
  unfoldable pub parse_ip : ℕ → GoString → Option (List GoString)
  unfolding parse_trimmed
  parse_ip fuel given = parse_trimmed fuel (trim_right given 47)

  -- The lists of all parts, one after the other.
  abbrev pub parse_all : ℕ → List GoString → Option (List GoString)
  parse_all fuel [] = some []
  parse_all fuel (part ∷ parts) = do
    ips ← parse_ip fuel part
    others ← parse_all fuel parts
    some (ips ++ others)

  unfoldable pub get_ip_list : ℕ → GoString → Option (List GoString)
  get_ip_list fuel s = parse_all fuel (split_string s)
