-- ===== src/Install.antt =====
-- Installing on other hosts: BulkInstallJoebot of src/joebot/server/server.go.
pub mod Ssh
pub mod Limit
pub mod Goroutines
pub mod Ends
pub mod Results
use joebot.Prelude.{
  ℕ, zero, suc, ◌+◌, ◌-◌, ◌*◌, ◌/◌, ◌%◌, ◌^◌, ◌≤◌, ◌<◌, ◌≡◌, refl, sym, ap, ◌∙◌, ◌≢◌, ◌↔◌, ◌⊎◌, inl,
  inr, Bool, true, false, not, ◌&&◌, ◌||◌, Option, none, some, List, [], ◌∷◌, ◌++◌, map, arith, ltb,
  leb, ◌==◌, if◌then◌else◌, ==_refl, ==_iff, ltb→lt, lt→ltb, leb→le, le→leb, gt→leb, Bool-cases,
  Option-cases, some-eq, Result-cases, str_eq, str_eq→eq, str_eq_refl, length, get_elem?, take,
  drop, replicate, All, length-append, All-append, All-left, All-right, length-replicate, take_all,
  take-append, drop-append, count, has, without, count-append, has→count, not_has→count,
  count-without_self, count-without, without_absent, GoString, str, GoError, fault, message, wrap,
  Result, ok, err, ◌>>=◌, ◌>>◌, wrapped,
}
use joebot.Models.{Address, BulkInstallInfo}
use joebot.Strings.{itoa}
use joebot.Install.Ssh.{SshResult, SshHost, Remote, upload_myself, dossh}

-- The file that is made on the host; the number is `Intn(99999)`.
unfoldable pub remote_file : ℕ → GoString
remote_file n = str "/tmp/joebot_remote_installed_" ++ itoa n

unfoldable pub install_commands : BulkInstallInfo → GoString → List GoString
install_commands info dst_file_path =
    (str "chmod +x " ++ dst_file_path)
    ∷ ((str "nohup "
          ++ (dst_file_path
              ++ (str " client -p "
                  ++ (itoa info.joebot_server_port
                      ++ (str " " ++ (info.joebot_server_ip ++ str " &"))))))
        ∷ [])

-- limitFunc: what is sent to the channel of a host.
unfoldable pub limit_func : Remote → Remote → BulkInstallInfo → ℕ → SshHost → List SshResult
unfolding upload_myself dossh remote_file install_commands
limit_func first second info n h =
    upload_myself first (remote_file n) h 120 []
    ++ dossh second h (install_commands info (remote_file n)) 120 [] false

unfoldable pub host_of : BulkInstallInfo → Address → SshHost
host_of info addr = record {
  host = addr.ip;
  port = addr.port;
  username = info.username;
  password = info.password;
  cmd_list = [];
  key = info.key;
  linux_mode = false;
}

abbrev pub told : SshResult → List SshResult → List SshResult
told res rest = if str_eq res.result [] then rest else res ∷ rest

-- The loop that receives twice from each channel; `none` waits for ever. A channel holds what its
-- host's function sent in the end.
unfoldable pub collect : List (List SshResult) → Option (List SshResult)
collect [] = some []
collect ((first ∷ (second ∷ sent)) ∷ chs) = elim (collect chs) [
  | none ↦ none
  | some rest ↦ some (told first (told second rest))
]
collect (_ ∷ chs) = none

-- The connections and random numbers of the i-th host.
pub record Surroundings : Type 0 where
  pub remote : ℕ → Bool → Remote
  pub random : ℕ → ℕ

abbrev pub channels : Surroundings → BulkInstallInfo → ℕ → List Address → List (List SshResult)
channels w info i [] = []
channels w info i (addr ∷ rest) =
    limit_func (w.remote i false) (w.remote i true) info (w.random i) (host_of info addr)
    ∷ channels w info (suc i) rest

-- BulkInstallJoebot for a list of addresses: the text that it returns, and the results that it
-- prints; `none` is a wait for ever.
unfoldable pub install_on :
    Surroundings → BulkInstallInfo → List Address → Option (Result GoString × List SshResult)
unfolding collect limit_func host_of
install_on w info [] = some (err (message (str "Empty Address List")), [])
install_on w info (addr ∷ rest) = elim (collect (channels w info 0 (addr ∷ rest))) [
  | none ↦ none
  | some results ↦ some (ok [], results)
]

unfoldable pub bulk_install_joebot :
    Surroundings → BulkInstallInfo → Option (Result GoString × List SshResult)
unfolding install_on
bulk_install_joebot w info = install_on w info info.addresses
