-- ===== src/Install/Ssh.antt =====
-- One host over SSH: src/joebot/sshconnect/sshconnect.go, and SSHHost and SSHResult of
-- src/joebot/sshconnect/cfg.go.
use joebot.Prelude.{
  ℕ, Bool, true, false, Option, none, some, List, [], ◌∷◌, ◌++◌, map, ◌==◌, if◌then◌else◌, str_eq,
  length, GoString, str, GoError, Result, ok, err, ◌>>=◌, ◌>>◌,
}
use joebot.Strings.{itoa}

pub record SshResult : Type 0 where
  pub host : GoString
  pub success : Bool
  pub result : GoString

pub record SshHost : Type 0 where
  pub host : GoString
  pub port : ℕ
  pub username : GoString
  pub password : GoString
  pub cmd_list : List GoString
  pub key : GoString
  pub linux_mode : Bool

pub data AuthMethod : Type 0 where
  password_auth : GoString → AuthMethod
  public_keys : ℕ → AuthMethod

-- What one connection meets: files, keys, the SSH and SFTP libraries, and whether the timeout comes
-- before the answer. Handles are numbers; a session answers its input with two outputs.
pub record Remote : Type 0 where
  pub read_file : GoString → Result GoString
  pub parse_private_key : GoString → Result ℕ
  pub parse_private_key_with_passphrase : GoString → GoString → Result ℕ
  pub dial : GoString → AuthMethod → List GoString → GoString → Result ℕ
  pub new_session : ℕ → Result ℕ
  pub request_pty : ℕ → Result (Unit {0})
  pub shell : ℕ → Result (Unit {0})
  pub run : ℕ → GoString → Result (Unit {0})
  pub outputs : ℕ → GoString → GoString × GoString
  pub new_client : ℕ → Result ℕ
  pub create : ℕ → GoString → Result ℕ
  pub own_path : Result GoString
  pub open_file : GoString → Result ℕ
  pub copy : ℕ → ℕ → Result ℕ
  pub error_text : GoError → GoString
  pub late : Bool

abbrev pub default_ciphers : List GoString
default_ciphers = map str (
    "aes128-ctr"
    ∷ ("aes192-ctr"
        ∷ ("aes256-ctr"
            ∷ ("aes128-gcm@openssh.com"
                ∷ ("arcfour256"
                    ∷ ("arcfour128"
                        ∷ ("aes128-cbc" ∷ ("3des-cbc" ∷ ("aes192-cbc" ∷ ("aes256-cbc" ∷ []))))))))))

module _ (remote : Remote) where
  -- The choice of the authentication: a password, or the key file, whose passphrase is the password.
  unfoldable pub auth_method : SshHost → Result AuthMethod
  auth_method h =
      if str_eq h.key []
      then ok (password_auth h.password)
      else (remote.read_file h.key >>= λ pem_bytes.
          (if str_eq h.password []
            then remote.parse_private_key pem_bytes
            else remote.parse_private_key_with_passphrase pem_bytes h.password)
          >>= λ signer. ok (public_keys signer))

  -- The client, and the session if one is asked for.
  unfoldable pub connect : SshHost → List GoString → Bool → Result (ℕ × Option ℕ)
  unfolding auth_method
  connect h cipher_list init_session = do
    auth ← auth_method h
    client ←
        remote.dial h.username auth
          (if length cipher_list == 0 then default_ciphers else cipher_list)
          (h.host ++ (str ":" ++ itoa h.port))
    if init_session
        then (remote.new_session client >>= λ session.
            remote.request_pty session >> ok (client, some session))
        else ok (client, none)

  unfoldable pub failure : SshHost → GoError → SshResult
  failure h e = record {
    host = h.host;
    success = false;
    result = str "<" ++ (remote.error_text e ++ str ">");
  }

  abbrev pub answered : SshHost → Result GoString → SshResult
  answered h (ok text) = record { host = h.host; success = true; result = text }
  answered h (err e) = failure h e

  -- The goroutine of UploadMyself: it copies the running program to the host.
  unfoldable pub upload : GoString → SshHost → List GoString → SshResult
  upload dst_file_path h cipher_list = answered h (do
    (conn, session) ← connect h cipher_list false
    client ← remote.new_client conn
    dst_file ← remote.create client dst_file_path
    cur_file ← remote.own_path
    src_file ← remote.open_file cur_file
    bytes ← remote.copy dst_file src_file
    ok (str "<" ++ (itoa bytes ++ str " bytes copied>")))

  -- What stands in the two buffers in the end; any text on the standard error is a failure.
  unfoldable pub buffers : SshHost → GoString × GoString → SshResult
  buffers h (outbt, errbt) =
      if str_eq errbt []
      then record { host = h.host; success = true; result = outbt }
      else record { host = h.host; success = false; result = errbt }

  abbrev pub lines : List GoString → GoString
  lines [] = []
  lines (c ∷ cs) = c ++ (str "\n" ++ lines cs)

  abbrev pub session_of : Option ℕ → ℕ
  session_of none = 0
  session_of (some session) = session

  unfoldable pub dossh_session : SshHost → List GoString → List GoString → SshResult
  dossh_session h cmdlist cipher_list = elim (connect h cipher_list true) [
    | err e ↦ failure h e
    | ok (client, session) ↦ elim (remote.shell (session_of session)) [
      | err e ↦ failure h e
      | ok u ↦
          buffers h (remote.outputs (session_of session) (lines (cmdlist ++ (str "exit" ∷ []))))
    ]
  ]

  abbrev pub join_and : List GoString → GoString
  join_and [] = []
  join_and (c ∷ []) = c
  join_and (c ∷ (d ∷ cs)) = c ++ (str "&&" ++ join_and (d ∷ cs))

  unfoldable pub dossh_run : SshHost → List GoString → List GoString → SshResult
  dossh_run h cmdlist cipher_list =
      let newcmd = join_and (cmdlist ++ (str "exit" ∷ [])) in
      elim (connect h cipher_list true) [
        | err e ↦ failure h e
        | ok (client, session) ↦ elim (remote.run (session_of session) newcmd) [
          | err e ↦ failure h e
          | ok u ↦ buffers h (remote.outputs (session_of session) newcmd)
        ]
      ]

  -- The colon of the message is the full-width one, three bytes.
  unfoldable pub timed_out : SshHost → ℕ → SshResult
  timed_out h timeout = record {
    host = h.host;
    success = false;
    result =
        str "SSH run timeout" ++ ((239 ∷ (188 ∷ (154 ∷ []))) ++ (itoa timeout ++ str " second."));
  }

  -- The `select` of UploadMyself and Dossh: the results that are sent to the channel.
  unfoldable pub select_result : SshHost → ℕ → SshResult → List SshResult
  unfolding timed_out
  select_result h timeout res = (if remote.late then timed_out h timeout else res) ∷ []

  unfoldable pub upload_myself : GoString → SshHost → ℕ → List GoString → List SshResult
  unfolding select_result upload
  upload_myself dst_file_path h timeout cipher_list =
      select_result h timeout (upload dst_file_path h cipher_list)

  unfoldable pub dossh : SshHost → List GoString → ℕ → List GoString → Bool → List SshResult
  unfolding select_result dossh_session dossh_run
  dossh h cmdlist timeout cipher_list linux_mode =
      select_result h timeout (
        if linux_mode then dossh_run h cmdlist cipher_list else dossh_session h cmdlist cipher_list)
