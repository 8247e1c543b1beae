-- ===== src/Server/Steps.antt =====
-- The steps of the server in src/joebot/server/server.go and of its clients in
-- src/joebot/server/client.go, and what each does to the registry.
use joebot.Prelude.{
  ℕ, ◌≡◌, refl, sym, ap, ◌∙◌, true, Option, none, some, List, [], Result-cases, has, GoString,
  Result, ok, err, inl, inr, Bool-cases, Option-cases, some-eq, if◌then◌else◌, ==_refl,
}
use mathlib.Core.Path.{subst}
use joebot.Models.{ClientInfo}
use joebot.Ports.{Os}
use joebot.Server.{Server, is_set, opened, update_info, stop_at-set, stop_at-unset, stopped_at}
use joebot.Server.Distinct.{Live-stopped_at}
use joebot.Server.Leaving.{Ready, remove_client-IsSound, remove_client_returns}
use joebot.Server.Provision.{After, create_services-After}
use joebot.Server.Registry.{
  Registry, registry, Change, Call, leaves, serves, informs, left, served, informed, Opens, Opened,
  unopened, opened, without_id, without_id-change_id,
}
use joebot.Server.Services.{
  zero_info, Talk, set_info, set_session, create_services, client_start, client_info_update,
  exit_if_error,
}
use joebot.Server.Sound.{IsSound, create_tunnel-IsSound, informed-IsSound, stopped_at-IsSound}
use joebot.Server.Tunnel.{Gob, Exchange, Turn, Tunnelled, create_tunnel}
use joebot.Slices.{visible}

-- The server after a call: sound, and the registry has made the step of the call.
abbrev pub Goes : Server → Call → Server → Type 0
Goes s call s' = IsSound s' × Change (registry s) (registry s') call

-- A server after requests for tunnels of the client at an address, who is still there.
record Here (s : Server) (a : ℕ) (s' : Server) : Type 0 where
  sound : IsSound s'
  tunnels : Opened (s.heap a).id (registry s) (registry s')
  listed : has a (visible s'.clients) ≡ true
  named : (s'.heap a).id ≡ (s.heap a).id

-- A call that returns, with what holds of its result.
abbrev pub Returns {ℓ} : {A : Type ℓ} → Option A → (A → Type 0) → Type ℓ
Returns {A = A} o P = (a : A) × (o ≡ some a) × P a

returned : {A : Type 0} (o : Option A) (P : A → Type 0) → After ⊥ P o → Returns o P
returned none P h = absurd h
returned (some a) P h = (a, refl, h)

-- The four services of a client of the list start without a panic, whichever of them fail.
pub create_services-IsSound :
    (os : Os) (gob : Gob) (s : Server) (a : ℕ) (talks : Talk × Talk × Talk × Talk) (t : ℕ)
    → IsSound s
    → has a (visible s.clients) ≡ true
    → Returns (create_services os gob s a talks t) (λ r. Goes s (serves (s.heap a).id) r.0)
create_services-IsSound os gob s a talks t v m =
    let (r, e, h) = returned _ _ (
      create_services-After os gob a ⊥ (Here s a) tunnel_keeps note_keeps s talks t
        (record { sound = v; tunnels = unopened; listed = m; named = refl })) in
    (r, e, (h.sound, served (s.heap a).id h.tunnels))
  where
    tunnel_keeps :
        (s' : Server) (link : Exchange) (turn : Turn) (port t : ℕ)
        → Here s a s'
        → After ⊥
            (λ (r : Tunnelled). Here s a r.server)
            (create_tunnel os gob s' a link turn port t)
    tunnel_keeps s' link turn port t h =
        let (r, e, sound, new, same, kept) =
          create_tunnel-IsSound os gob s' a link turn port t h.sound h.listed in
        rw e (record {
          sound = sound;
          tunnels =
              opened h.tunnels
                (subst (λ id. Opens id (registry s') (registry r.server)) h.named new);
          listed = rw same h.listed;
          named = kept ∙ h.named;
        })

    note_keeps :
        (s' : Server) (f : ClientInfo → ClientInfo)
        → (f (s'.heap a).info).port_tunnels ≡ (s'.heap a).info.port_tunnels
        → Here s a s'
        → Here s a (set_info s' a f)
    note_keeps s' f same h =
        let (sound, unchanged) =
          informed-IsSound s' a (record (s'.heap a) { info = f (s'.heap a).info }) h.sound h.listed
            (ap (λ ts. (record { id = (s'.heap a).id; tunnels = ts })) same) in
        record {
          sound = sound;
          tunnels = subst (λ g. Opened (s.heap a).id (registry s) g) (sym unchanged) h.tunnels;
          listed = h.listed;
          named =
              ap
                (λ b.
                  (if b then record (s'.heap a) { info = f (s'.heap a).info } else s'.heap a).id)
                (==_refl a)
              ∙ h.named;
        }

left-eq : {g g' : Registry} {id : GoString} → Change g g' (leaves id) → g' ≡ without_id id g
left-eq (left id e) = e

-- ExitIfError of a client of the list that returns: the client is stopped, and then removed.
pub exit_if_error-Goes :
    (s : Server) (a : ℕ) (s' : Server)
    → IsSound s
    → has a (visible s.clients) ≡ true
    → exit_if_error s a ≡ some s'
    → Goes s (leaves (s.heap a).id) s'
unfolding exit_if_error
exit_if_error-Goes s a s' v m e = elim (Bool-cases (is_set (s.heap a).session)) [
  | inr not_set ↦ cc (rw (stop_at-unset a s not_set, exit_if_error) at e)
  | inl set ↦
      let (sound, stopped) = stopped_at-IsSound s a v m in
      elim (remove_client-IsSound (stopped_at a s) (s.heap a).id sound) [
        | inl panics ↦ cc (rw (stop_at-set a s set, panics, exit_if_error) at e)
        | inr (s'', res, done, sound', gone) ↦
            subst (λ k. Goes s (leaves (s.heap a).id) k)
              (some-eq (rw (stop_at-set a s set, done, exit_if_error) at e))
              (
                sound',
                left (s.heap a).id (
                    left-eq gone
                    ∙ ap (λ g. without_id (s.heap a).id g) stopped
                    ∙ without_id-change_id (s.heap a).id (λ ts. []) (registry s)),
              )
      ]
]

-- Where every client of the list has a session, ExitIfError of a client of the list returns.
pub exit_if_error_returns :
    (s : Server) (a : ℕ)
    → IsSound s
    → has a (visible s.clients) ≡ true
    → Ready s
    → (s' : Server) × (exit_if_error s a ≡ some s')
unfolding exit_if_error
exit_if_error_returns s a v m ready =
    let (sound, stopped) = stopped_at-IsSound s a v m in
    let (s', res, done, _, _) =
      remove_client_returns (stopped_at a s) (s.heap a).id sound
        (unfold stopped_at in Live-stopped_at (λ b. has b (visible s.clients) ≡ true) s a ready) in
    (s', rw (stop_at-set a s (ready a m), done, exit_if_error) refl)

-- What the start of a client is to the registry: with a session it gets services, without one it
-- leaves.
abbrev pub start_call : Result (Unit {0}) → GoString → Call
start_call (ok session) id = serves id
start_call (err e) id = leaves id

-- Start of a client of the list with a yamux session returns, whichever of its services fail.
pub client_start-IsSound :
    (os : Os) (gob : Gob) (s : Server) (a : ℕ) (talks : Talk × Talk × Talk × Talk) (t : ℕ)
    → IsSound s
    → has a (visible s.clients) ≡ true
    → Returns (client_start os gob s a (ok tt) talks t) (λ r. Goes s (serves (s.heap a).id) r.0)
unfolding client_start
client_start-IsSound os gob s a talks t v m =
    let (sound, same) = informed-IsSound s a (record (s.heap a) { session = opened }) v m refl in
    let (r, e, (sound', change)) =
      create_services-IsSound os gob (set_session s a) a talks t sound m in
    (
      r,
      e,
      (
        sound',
        subst (λ g. Change g (registry r.0) (serves (s.heap a).id)) same
            (subst (λ id. Change (registry (set_session s a)) (registry r.0) (serves id))
              (ap (λ b. (if b then record (s.heap a) { session = opened } else s.heap a).id)
                (==_refl a))
              change),
      ),
    )

pub client_start-Goes :
    (os : Os) (gob : Gob) (s : Server) (a : ℕ) (session : Result (Unit {0}))
    (talks : Talk × Talk × Talk × Talk) (t : ℕ) (r : Server × ℕ)
    → IsSound s
    → has a (visible s.clients) ≡ true
    → client_start os gob s a session talks t ≡ some r
    → Goes s (start_call session (s.heap a).id) r.0
unfolding client_start
client_start-Goes os gob s a (ok tt) talks t r v m e =
    let (r', given, goes) = client_start-IsSound os gob s a talks t v m in
    subst (λ k. Goes s (serves (s.heap a).id) k.0) (some-eq (sym given ∙ e)) goes
client_start-Goes os gob s a (err x) talks t r v m e = elim (Option-cases (exit_if_error s a)) [
  | inl panics ↦ cc (rw (panics, client_start) at e)
  | inr (s', gone) ↦
      subst (λ k. Goes s (leaves (s.heap a).id) k.0) (some-eq (rw (gone, client_start) at e))
        (exit_if_error-Goes s a s' v m gone)
]

-- The information about a client of the list, whether it can be decoded or not.
pub client_info_update-IsSound :
    (gob : Gob) (s : Server) (a : ℕ) (body : List ℕ)
    → IsSound s
    → has a (visible s.clients) ≡ true
    → Goes s (informs (s.heap a).id) (client_info_update gob s a body).0
unfolding client_info_update update_info
client_info_update-IsSound gob s a body v m =
    elim (Result-cases (gob.decode_client body zero_info)) [
      | inr (e, fails) ↦ rw (fails, client_info_update) (v, informed (s.heap a).id refl)
      | inl (info, fine) ↦
          let (sound, same) =
            informed-IsSound s a (update_info (s.heap a) info) v m (unfold update_info in refl) in
          rw (fine, client_info_update) (sound, informed (s.heap a).id same)
    ]
