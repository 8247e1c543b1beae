-- ===== src/Addresses/Plain.antt =====
-- Lists of single addresses, and masks, that the code of src/joebot/sshconnect/cfg.go reads back.
use joebot.Prelude.{
  ℕ, ◌≡◌, ◌≤◌, ◌<◌, refl, ap, ◌∙◌, Bool, true, false, ◌==◌, some, List, [], ◌∷◌, ◌++◌, arith, All,
  has, map, str_eq, GoString, ok, ==_refl,
}
use mathlib.Core.List.{append-nil, reverse, reverse_aux}
use joebot.Addresses.{
  Net, octet, parse_all, parse_ip, parse_trimmed, split_string, get_ip_list, ip_mask_string_to_cidr,
}
use joebot.Addresses.Files.{file_lines, getfile, get_ip_list_from_file, ip_mask_cidr_to_string}
use joebot.Strings.{
  ℤ, pos, split, join, contains, has_prefix, trim_left_by, trim_right, trim_space, itoa,
}
use joebot.Strings.Decimal.{atoi-itoa, has-itoa}
use joebot.Strings.Join.{split-join}
use joebot.Strings.Split.{split_one}

contains-one : (c : ℕ) (s : GoString) → contains s (c ∷ []) ≡ has c s
unfolding contains has_prefix
contains-one c [] = refl
contains-one c (x ∷ s) = ground (arith, contains-one c s)

has-reverse_aux :
    (c : ℕ) (xs ys : List ℕ)
    → has c xs ≡ false
    → has c ys ≡ false
    → has c (reverse_aux xs ys) ≡ false
has-reverse_aux c [] ys h k = k
has-reverse_aux c (x ∷ xs) ys h k =
    has-reverse_aux c xs (x ∷ ys) (ground (arith, h)) (ground (arith, h, k))

reverse-reverse_aux :
    (xs ys zs : List ℕ) → reverse_aux (reverse_aux xs ys) zs ≡ reverse_aux ys (xs ++ zs)
reverse-reverse_aux [] ys zs = refl
reverse-reverse_aux (x ∷ xs) ys zs = reverse-reverse_aux xs (x ∷ ys) zs

trim_left_by_absent : (c : ℕ) (s : GoString) → has c s ≡ false → trim_left_by (λ x. x == c) s ≡ s
unfolding trim_left_by
trim_left_by_absent c [] h = refl
trim_left_by_absent c (x ∷ s) h = ground (arith, h)

trim_right_absent : (c : ℕ) (s : GoString) → has c s ≡ false → trim_right s c ≡ s
unfolding trim_right
trim_right_absent c s h =
    ap reverse (trim_left_by_absent c (reverse s) (has-reverse_aux c s [] h refl))
    ∙ reverse-reverse_aux s [] []
    ∙ append-nil s

-- A text with no slash and no dash: neither a network nor a range.
abbrev pub IsSingle : GoString → Type 0
IsSingle ip = (has 47 ip ≡ false) × (has 45 ip ≡ false)

-- ParseIp takes such a text as it is, whether it is an address or not.
parse_ip-IsSingle :
    (net : Net) (fuel : ℕ) (ip : GoString) → IsSingle ip → parse_ip net fuel ip ≡ some (ip ∷ [])
unfolding parse_ip parse_trimmed
parse_ip-IsSingle net fuel ip (slash, dash) =
    ap (λ s. parse_trimmed net fuel s) (trim_right_absent 47 ip slash) ∙ trimmed
  where
    trimmed : parse_trimmed net fuel ip ≡ some (ip ∷ [])
    trimmed = rw (contains-one 47 ip, slash, contains-one 45 ip, dash, parse_trimmed) refl

parse_all-IsSingle :
    (net : Net) (fuel : ℕ) (ips : List GoString)
    → All IsSingle ips
    → parse_all net fuel ips ≡ some ips
parse_all-IsSingle net fuel [] h = refl
parse_all-IsSingle net fuel (ip ∷ ips) h =
    rw (parse_ip-IsSingle net fuel ip h.0, parse_all-IsSingle net fuel ips h.1) refl

has-append_sep : (c : ℕ) (s rest : GoString) → has c (s ++ (c ∷ rest)) ≡ true
has-append_sep c [] rest = rw (==_refl c) refl
has-append_sep c (x ∷ s) rest = ground (arith, has-append_sep c s rest)

split_string-join :
    (ip : GoString) (ips : List GoString)
    → All (λ s. has 44 s ≡ false) (ip ∷ ips)
    → All (λ s. has 59 s ≡ false) (ip ∷ ips)
    → split_string (join 44 (ip ∷ ips)) ≡ ip ∷ ips
unfolding split_string join
split_string-join ip [] commas semicolons =
    rw (contains-one 44 ip, commas.0, split_string) (split_one 59 ip semicolons.0)
split_string-join ip (next ∷ ips) commas semicolons =
    rw
      (
        contains-one 44 (join 44 (ip ∷ (next ∷ ips))),
        has-append_sep 44 ip (join 44 (next ∷ ips)),
        split_string,
      )
      (split-join 44 ip (next ∷ ips) commas)

-- Single addresses that hold no comma and no semicolon, joined by commas, are what GetIpList
-- returns, in order.
get_ip_list-join :
    (net : Net) (fuel : ℕ) (ip : GoString) (ips : List GoString)
    → All IsSingle (ip ∷ ips)
    → All (λ s. has 44 s ≡ false) (ip ∷ ips)
    → All (λ s. has 59 s ≡ false) (ip ∷ ips)
    → get_ip_list net fuel (join 44 (ip ∷ ips)) ≡ some (ip ∷ ips)
unfolding get_ip_list
get_ip_list-join net fuel ip ips single commas semicolons =
    ap (λ l. parse_all net fuel l) (split_string-join ip ips commas semicolons)
    ∙ parse_all-IsSingle net fuel (ip ∷ ips) single

-- A line that Getfile keeps as it is.
abbrev pub IsLine : GoString → Type 0
IsLine s = (has 10 s ≡ false) × (trim_space s ≡ s) × (str_eq s [] ≡ false)

file_lines-IsLine : (ips : List GoString) → All IsLine ips → file_lines ips ≡ ips
unfolding file_lines
file_lines-IsLine [] h = refl
file_lines-IsLine (ip ∷ ips) ((newline, trimmed, filled), h) =
    rw (trimmed, filled, file_lines-IsLine ips h) refl

no_newlines : (ips : List GoString) → All IsLine ips → All (λ s. has 10 s ≡ false) ips
no_newlines [] h = tt
no_newlines (ip ∷ ips) (line, h) = (line.0, no_newlines ips h)

-- A file of lines that are single addresses without white space around them gives GetIpListFromFile
-- these addresses, in order.
get_ip_list_from_file-join :
    (net : Net) (fuel : ℕ) (ip : GoString) (ips : List GoString)
    → All IsSingle (ip ∷ ips)
    → All IsLine (ip ∷ ips)
    → get_ip_list_from_file net fuel (ok (join 10 (ip ∷ ips))) ≡ some (ip ∷ ips)
unfolding get_ip_list_from_file getfile
get_ip_list_from_file-join net fuel ip ips single lines =
    ap (λ l. parse_all net fuel l)
      (ap file_lines (split-join 10 ip ips (no_newlines (ip ∷ ips) lines))
        ∙ file_lines-IsLine (ip ∷ ips) lines)
    ∙ parse_all-IsSingle net fuel (ip ∷ ips) single

octet-itoa : (n : ℕ) → n < 256 → octet (itoa n) ≡ n
octet-itoa n small = rw (atoi-itoa n (omega arith), octet) (omega arith)

ip_mask_string_to_cidr-bytes :
    (net : Net) (netmask : GoString) (a b c d : ℕ)
    → split 46 netmask ≡ itoa a ∷ (itoa b ∷ (itoa c ∷ (itoa d ∷ [])))
    → All (λ x. x < 256) (a ∷ (b ∷ (c ∷ (d ∷ []))))
    → ip_mask_string_to_cidr net netmask ≡ some (itoa (net.mask_ones (a ∷ (b ∷ (c ∷ (d ∷ []))))))
unfolding ip_mask_string_to_cidr
ip_mask_string_to_cidr-bytes net netmask a b c d parts (ha, (hb, (hc, (hd, end)))) =
    rw (parts, ip_mask_string_to_cidr)
      (rw (octet-itoa a ha, octet-itoa b hb, octet-itoa c hc, octet-itoa d hd) refl)

-- A length of a mask that net.CIDRMask makes a mask of four bytes of, and whose ones it is, is read
-- back from the dotted text that is written for it.
ip_mask_string_to_cidr-ip_mask_cidr_to_string :
    (net : Net) (cidr_mask : ℤ → List ℕ) (n a b c d : ℕ)
    → n ≤ 32
    → cidr_mask (pos n) ≡ a ∷ (b ∷ (c ∷ (d ∷ [])))
    → All (λ x. x < 256) (a ∷ (b ∷ (c ∷ (d ∷ []))))
    → net.mask_ones (a ∷ (b ∷ (c ∷ (d ∷ [])))) ≡ n
    → ip_mask_string_to_cidr net (ip_mask_cidr_to_string cidr_mask (itoa n)) ≡ some (itoa n)
unfolding ip_mask_cidr_to_string
ip_mask_string_to_cidr-ip_mask_cidr_to_string net cidr_mask n a b c d small made bytes ones =
    ip_mask_string_to_cidr-bytes net (ip_mask_cidr_to_string cidr_mask (itoa n)) a b c d parts bytes
    ∙ ap (λ k. some (itoa k)) ones
  where
    written :
        ip_mask_cidr_to_string cidr_mask (itoa n) ≡ join 46 (map itoa (a ∷ (b ∷ (c ∷ (d ∷ [])))))
    written =
        ap (λ (r : ℤ × Bool). join 46 (map itoa (cidr_mask r.0)))
          (atoi-itoa n (omega (arith, small)))
        ∙ ap (λ m. join 46 (map itoa m)) made

    parts :
        split 46 (ip_mask_cidr_to_string cidr_mask (itoa n))
        ≡ itoa a ∷ (itoa b ∷ (itoa c ∷ (itoa d ∷ [])))
    parts =
        ap (λ s. split 46 s) written
        ∙ split-join 46 (itoa a) (itoa b ∷ (itoa c ∷ (itoa d ∷ []))) (
          has-itoa 46 a refl,
          (has-itoa 46 b refl, (has-itoa 46 c refl, (has-itoa 46 d refl, tt))),
        )
