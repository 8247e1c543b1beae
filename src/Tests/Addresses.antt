-- ===== src/Tests/Addresses.antt =====
-- Addresses of src/joebot/sshconnect.
use joebot.Prelude.{◌≡◌, refl, none, some, [], ◌∷◌, map, arith, if◌then◌else◌, str_eq, str}
use joebot.Addresses.{Net, text_of, ip_to_int, get_available_ip_range}
use joebot.Addresses.Range.{consecutive, get_available_ip_range_lem, get_available_ip_range_endless}

-- Three texts that net.ParseIP and net.ParseCIDR read.
abbrev some_net : Net
some_net = record {
  parse_ip4 = λ s.
      if str_eq s (str "10.0.0.1")
      then some (10 ∷ (0 ∷ (0 ∷ (1 ∷ []))))
      else if str_eq s (str "10.0.0.3")
      then some (10 ∷ (0 ∷ (0 ∷ (3 ∷ []))))
      else if str_eq s (str "127.255.255.255")
      then some (127 ∷ (255 ∷ (255 ∷ (255 ∷ []))))
      else none;
  parse_cidr = λ s.
      if str_eq s (str "10.0.0.4/30")
      then some (10 ∷ (0 ∷ (0 ∷ (4 ∷ []))), 255 ∷ (255 ∷ (255 ∷ (252 ∷ []))))
      else none;
  mask_ones = λ mask. 30;
  to4 = λ ip. some ip;
}

parsed_1 : some_net.parse_ip4 (str "10.0.0.1") ≡ some (10 ∷ (0 ∷ (0 ∷ (1 ∷ []))))
unfolding str_eq
parsed_1 = refl

parsed_3 : some_net.parse_ip4 (str "10.0.0.3") ≡ some (10 ∷ (0 ∷ (0 ∷ (3 ∷ []))))
unfolding str_eq
parsed_3 = refl

parsed_last : some_net.parse_ip4 (str "127.255.255.255") ≡ some (127 ∷ (255 ∷ (255 ∷ (255 ∷ []))))
unfolding str_eq
parsed_last = refl

number_1 : ip_to_int (10 ∷ (0 ∷ (0 ∷ (1 ∷ [])))) ≡ some 167772161
unfolding ip_to_int
number_1 = refl

number_3 : ip_to_int (10 ∷ (0 ∷ (0 ∷ (3 ∷ [])))) ≡ some 167772163
unfolding ip_to_int
number_3 = refl

number_last : ip_to_int (127 ∷ (255 ∷ (255 ∷ (255 ∷ [])))) ≡ some 2147483647
unfolding ip_to_int
number_last = refl

get_available_ip_range_lem_example :
    get_available_ip_range some_net 4 (str "10.0.0.1") (str "10.0.0.3")
    ≡ some (map text_of (consecutive 167772161 3))
get_available_ip_range_lem_example =
    get_available_ip_range_lem some_net (str "10.0.0.1") (str "10.0.0.3")
      (10 ∷ (0 ∷ (0 ∷ (1 ∷ [])))) (10 ∷ (0 ∷ (0 ∷ (3 ∷ [])))) 167772161 167772163 parsed_1 parsed_3
      number_1 number_3 4 3 (omega arith) (omega arith) refl (omega arith)

get_available_ip_range_endless_example :
    get_available_ip_range some_net 9 (str "10.0.0.1") (str "127.255.255.255") ≡ none
get_available_ip_range_endless_example =
    get_available_ip_range_endless some_net (str "10.0.0.1") (str "127.255.255.255")
      (10 ∷ (0 ∷ (0 ∷ (1 ∷ [])))) (127 ∷ (255 ∷ (255 ∷ (255 ∷ [])))) 167772161 2147483647 parsed_1
      parsed_last number_1 number_last 9 refl
