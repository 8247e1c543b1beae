-- ===== src/Models.antt =====
-- The structs of src/joebot/models. Port numbers are natural numbers; a nil slice or pointer is `none`.
use joebot.Prelude.{ℕ, Bool, List, Option, GoString}

pub record PortTunnelInfo : Type 0 where
  pub gost_server_port : ℕ
  pub server_port : ℕ
  pub client_port : ℕ

pub record NovncWebsocketInfo : Type 0 where
  pub vnc_server_port : ℕ
  pub novnc_websocket_port : ℕ
  pub port_tunnel_on_host : PortTunnelInfo

pub record GottyWebTerminalInfo : Type 0 where
  pub gotty_web_terminal_port : ℕ
  pub port_tunnel_on_host : PortTunnelInfo

pub record FilebrowserInfo : Type 0 where
  pub default_directory : GoString
  pub filebrowser_port : ℕ
  pub port_tunnel_on_host : PortTunnelInfo

pub record ClientInfo : Type 0 where
  pub id : GoString
  pub ip : GoString
  pub host_name : GoString
  pub tags : Option (List GoString)
  pub username : GoString
  pub port_tunnels : List PortTunnelInfo
  pub ssh_tunnel : Option PortTunnelInfo
  pub novnc_websocket_info : Option NovncWebsocketInfo
  pub gotty_web_terminal_info : Option GottyWebTerminalInfo
  pub filebrowser_info : Option FilebrowserInfo

pub record UserInfo : Type 0 where
  pub id : ℕ
  pub username : GoString
  pub password : GoString
  pub is_admin : Bool
  pub token : GoString
  pub ip_whitelisted : GoString

-- The time of expiry is in hours.
pub record UserResponse : Type 0 where
  pub username : GoString
  pub token : GoString
  pub expired_at : ℕ

pub record Address : Type 0 where
  pub ip : GoString
  pub port : ℕ

pub record BulkInstallInfo : Type 0 where
  pub joebot_server_ip : GoString
  pub joebot_server_port : ℕ
  pub addresses : List Address
  pub username : GoString
  pub password : GoString
  pub key : GoString
