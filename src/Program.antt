-- ===== src/Program.antt =====
-- The command line: src/joebot/main.go.
pub mod Start
use joebot.Prelude.{
  ℕ, Bool, false, not, ◌&&◌, ◌∷◌, [], ◌++◌, Option, none, some, List, if◌then◌else◌, str_eq,
  GoString, str, Result,
}
use joebot.Client.{Settings, Client, new_client}
use joebot.Ports.{Os}
use joebot.Server.Startup.{Listening, Started, new_server, server_start}
use joebot.Strings.{ℤ, pos, itoa}

-- The flags of the two commands once kingpin has read them; a flag that is not given has its
-- default; the tags are none when no flag gives one.
pub record ServerFlags : Type 0 where
  pub port : ℕ
  pub cert : GoString
  pub key : GoString
  pub tls_cert : GoString
  pub tls_key : GoString
  pub web_portal_port : ℕ

pub record ClientFlags : Type 0 where
  pub server_ip : GoString
  pub server_port : ℕ
  pub web_portal_port : ℕ
  pub allowed_port_range_lbound : ℤ
  pub allowed_port_range_ubound : ℤ
  pub tags : Option (List GoString)
  pub filebrowser_default_directory : GoString
  pub use_tls : Bool
  pub ca : GoString

-- The defaults of the client's flags, for an IP.
unfoldable pub default_client_flags : GoString → ClientFlags
default_client_flags ip = record {
  server_ip = ip;
  server_port = 13579;
  web_portal_port = 8080;
  allowed_port_range_lbound = pos 0;
  allowed_port_range_ubound = pos 65535;
  tags = none;
  filebrowser_default_directory = str "/";
  use_tls = false;
  ca = [];
}

-- Where the web portal listens.
pub data WebServer : Type 0 where
  https : GoString → GoString → GoString → WebServer
  http : GoString → WebServer

unfoldable pub web_server : ServerFlags → WebServer
web_server f =
    let addr = str ":" ++ itoa f.web_portal_port in
    if not (str_eq f.cert []) && not (str_eq f.key []) then https addr f.cert f.key else http addr

-- The server mode: the server that Start leaves, whose error is dropped, and the web portal. What
-- listening and loading the certificate give stands for the operating system.
unfoldable pub main_server :
    Os → ℕ → Result (Unit {0}) → Result (Unit {0}) → ℕ → ServerFlags → Started × WebServer
unfolding web_server
main_server os now listened loaded t f = (
  (server_start os now
      (record { listened = listened; tls_cert = f.tls_cert; tls_key = f.tls_key; loaded = loaded })
      new_server t).0,
  web_server f,
)

unfoldable pub settings_of : ClientFlags → Settings
settings_of f = record {
  server_ip = f.server_ip;
  server_port = f.server_port;
  server_web_portal_port = f.web_portal_port;
  allowed_port_range_lbound = f.allowed_port_range_lbound;
  allowed_port_range_ubound = f.allowed_port_range_ubound;
  tags = f.tags;
  use_tls = f.use_tls;
  ca = f.ca;
}

-- The client mode, up to the client that is started; `none` is a panic.
unfoldable pub main_client : ClientFlags → Option Client
unfolding settings_of
main_client f = elim (new_client (settings_of f)) [
  | none ↦ none
  | some c ↦ some (record c { filebrowser_default_dir = f.filebrowser_default_directory })
]
