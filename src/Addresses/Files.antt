-- ===== src/Addresses/Files.antt =====
-- Lists of addresses in files, and masks as texts: Getfile, GetIpListFromFile and IPMaskCIDRToString
-- of src/joebot/sshconnect/cfg.go.
use joebot.Prelude.{
  Option, some, List, [], ◌∷◌, map, if◌then◌else◌, str_eq, GoString, Result, ok, err, ◌>>=◌, ℕ,
}
use joebot.Addresses.{Net, parse_all}
use joebot.Strings.{ℤ, split, join, trim_space, atoi, itoa}

-- The loop of Getfile: white space around a line goes, and lines of nothing else.
unfoldable pub file_lines : List GoString → List GoString
file_lines [] = []
file_lines (line_str ∷ rest) =
    let others = file_lines rest in
    if str_eq (trim_space line_str) [] then others else trim_space line_str ∷ others

-- Getfile; what is read from the file is given.
unfoldable pub getfile : Result GoString → Result (List GoString)
unfolding file_lines
getfile b = do s ← b; ok (file_lines (split 10 s))

-- GetIpListFromFile, whose error is always nil.
unfoldable pub get_ip_list_from_file : Net → ℕ → Result GoString → Option (List GoString)
unfolding getfile
get_ip_list_from_file net fuel b = elim (getfile b) [
  | err e ↦ some []
  | ok res ↦ parse_all net fuel res
]

-- IPMaskCIDRToString; `cidr_mask` is net.CIDRMask for 32 bits, without bytes for nil.
unfoldable pub ip_mask_cidr_to_string : (ℤ → List ℕ) → GoString → GoString
ip_mask_cidr_to_string cidr_mask one = join 46 (map itoa (cidr_mask ((atoi one).0)))
