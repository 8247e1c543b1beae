-- ===== src/Client/Life.antt =====
-- How the tunnels of a client end, and the client: RemoveTunnel, Start, Stop and Reconnect of
-- src/joebot/client/client.go.
use joebot.Prelude.{
  Option, none, some, ◌⊎◌, inl, inr, Result-cases, wrapped, str, GoString, GoError, ℕ, ◌≡◌, refl,
  true, false, List, [], ◌∷◌, ◌++◌, All, err,
}
use joebot.Client.{Client, GostServer, remove_tunnel, same_addr, stop, reconnect, new_client}
use joebot.Client.Process.{
  Running, exit_if_error, Surroundings, start, transport, server_addr, update_client_info,
  client_handler,
}
use joebot.Handler.{HandlerFunc, find_handler}
use joebot.Slices.{visible}
use joebot.Slices.Removal.{range_remove-none, range_remove_one, over, last_of}
use joebot.Task.{
  TaskType, task_code, client_info_update_request, port_tunnel_request, ssh_tunnel_request,
  novnc_request, gotty_web_terminal_request, filebrowser_request, request,
}
use mathlib.Core.Path.{ap₂}
use mathlib.Core.List.{append-nil}

-- In a list in which exactly one tunnel has the address, RemoveTunnel takes that one out and keeps
-- the order of the others.
remove_tunnel-one :
    (c : Client) (g x : GostServer) (pre post junk : List GostServer)
    → c.gost_tunnels ≡ over (pre ++ (x ∷ post)) junk
    → All (λ y. same_addr g y ≡ false) pre
    → same_addr g x ≡ true
    → All (λ y. same_addr g y ≡ false) post
    → remove_tunnel g c
      ≡ some (record c { gost_tunnels = over (pre ++ post) (last_of x post ∷ junk) })
unfolding remove_tunnel
remove_tunnel-one c g x pre post junk e before here after =
    rw
      (
        e,
        range_remove_one {S = ℕ} (λ y s. some s) (same_addr g) pre x post junk 0 0 before here refl
            after,
        remove_tunnel,
      )
      refl

-- Stop closes every tunnel of the list. A tunnel whose goroutine then removes itself changes
-- nothing, and neither does a second Stop.
stop_lem :
    (c : Client) (g : GostServer)
    → ((stop c).closed ≡ c.closed ++ visible c.gost_tunnels)
      × (remove_tunnel g (stop c) ≡ some (stop c))
      × (stop (stop c) ≡ stop c)
unfolding stop remove_tunnel
stop_lem c g = (
  refl,
  rw (range_remove-none {S = ℕ} (λ y s. some s) (same_addr g) [] [] 0 tt, remove_tunnel) refl,
  ap₂ (λ x y. record (stop c) { closed = x; shut = y }) (append-nil _) (append-nil _),
)

-- Reconnect of a client whose settings NewClient accepts makes the client that NewClient makes for
-- them, with the directory of the file browser of the old one.
pub reconnect_lem :
    (c old : Client)
    → new_client c.settings ≡ some c
    → old.settings ≡ c.settings
    → reconnect old ≡ some (record c { filebrowser_default_dir = old.filebrowser_default_dir })
unfolding reconnect
reconnect_lem c old made same = rw (same, made, reconnect) refl

-- The handler that Start sets up finds the Handle function of each task that the server asks for,
-- and none for the task that only clients ask for.
pub client_handler_lem :
    (handle : TaskType → HandlerFunc Running) (task : TaskType)
    → find_handler (task_code task) (client_handler handle).handlers
      ≡ (elim task [ client_info_update_request ↦ none | t ↦ some (handle t) ])
unfolding client_handler find_handler task_code
client_handler_lem handle client_info_update_request = refl
client_handler_lem handle port_tunnel_request = refl
client_handler_lem handle ssh_tunnel_request = refl
client_handler_lem handle novnc_request = refl
client_handler_lem handle gotty_web_terminal_request = refl
client_handler_lem handle filebrowser_request = refl

-- A client that has given up: it is stopped, and one successor will connect.
abbrev pub given_up : Running → Running
given_up r = record r { client = stop r.client; successors = reconnect r.client ∷ r.successors }

exit_if_error_lem :
    (e : Option GoError) (r : Running)
    → ((exit_if_error e r).0 ≡ r) ⊎ ((exit_if_error e r).0 ≡ given_up r)
unfolding exit_if_error
exit_if_error_lem none r = inl refl
exit_if_error_lem (some e) r = inr refl

pub update_client_info_lem :
    (w : Surroundings) (local_addr : GoString) (r : Running)
    → (update_client_info w local_addr r ≡ r) ⊎ (update_client_info w local_addr r ≡ given_up r)
unfolding update_client_info
update_client_info_lem w local_addr r = exit_if_error_lem _ r

-- Without a stream UpdateClientInfo gives up.
pub update_client_info-broken :
    (w : Surroundings) (local_addr : GoString) (r : Running) (e : GoError)
    → w.opened ≡ err e
    → update_client_info w local_addr r ≡ given_up r
unfolding update_client_info exit_if_error request
update_client_info-broken w local_addr r e broken = rw (broken, update_client_info) refl

-- However far Start gets, either the client runs on as it was, or it is stopped and has exactly one
-- successor more, made by Reconnect.
start_lem : (w : Surroundings) (r : Running) → ((start w r).0 ≡ r) ⊎ ((start w r).0 ≡ given_up r)
unfolding start
start_lem w r =
    elim (Result-cases (
      wrapped (w.dial (transport r.client.settings) (server_addr r.client.settings))
        (str "Unable to connect to server: " ++ server_addr r.client.settings))) [
          | inr (e, refused) ↦ rw (refused, start) (exit_if_error_lem (some e) r)
          | inl (local_addr, dialed) ↦
              elim (Result-cases (wrapped w.yamux_client (str "Unable to create yamux session"))) [
                | inr (e, failed) ↦ rw (dialed, failed, start) (exit_if_error_lem (some e) r)
                | inl (u, ready) ↦ rw (dialed, ready, start) (update_client_info_lem w local_addr r)
              ]
        ]
