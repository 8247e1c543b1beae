-- ===== src/Server/Progress.antt =====
-- When CreateTunnel of src/joebot/server/client.go returns.
use joebot.Prelude.{ℕ, ◌<◌, ◌≡◌, inl, inr, some, List, Option-cases, length, count}
use joebot.Ports.{Os}
use joebot.Server.{Server}
use joebot.Server.Accounting.{Accounted, create_tunnel-Accounted}
use joebot.Server.Rotation.{get_tunnel_service_lem}
use joebot.Server.Tunnel.{Gob, Exchange, Turn, Tunnelled, create_tunnel}

-- On an accounted server whose index of the next service is in range, CreateTunnel on a client that
-- stands once in the list returns, and the server that it leaves is accounted.
pub create_tunnel_returns :
    (os : Os) (gob : Gob) (clients : List ℕ) (s : Server) (a : ℕ) (link : Exchange) (turn : Turn)
    (client_port t : ℕ)
    → count a clients ≡ 1
    → Accounted clients s
    → s.gost_tunnel_start_index < length s.gost_tunnels
    → (r : Tunnelled) × (create_tunnel os gob s a link turn client_port t ≡ some r)
      × Accounted clients r.server
unfolding create_tunnel
create_tunnel_returns os gob clients s a link turn client_port t here v within =
    let (g, s', took, _, _, _) = get_tunnel_service_lem s within in
    elim (Option-cases (create_tunnel os gob s a link turn client_port t)) [
      | inl panics ↦ cc (rw (took, create_tunnel) at panics)
      | inr (r, e) ↦
          (r, e, create_tunnel-Accounted os gob clients s a link turn client_port t r here v e)
    ]
