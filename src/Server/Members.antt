-- ===== src/Server/Members.antt =====
-- Clients that connect, in src/joebot/server/server.go, and the registry.
use joebot.Prelude.{
  ℕ, zero, suc, ◌≤◌, ◌≡◌, refl, sym, ap, ◌∙◌, true, false, List, [], ◌∷◌, ◌++◌, arith,
  if◌then◌else◌, ==_refl, str_eq, length, take, drop, All, length-append, All-map2, All-absent, has,
  not_has→count, GoString,
}
use mathlib.Core.Path.{subst, ap₂}
use joebot.Server.{Server, update, new_client, add_client}
use joebot.Server.Accounting.{Accounted}
use joebot.Server.Boot.{accept_client-Accounted}
use joebot.Server.Clients.{Lacks}
use joebot.Server.Distinct.{Distinct, Distinct-append, Distinct-agree, ids}
use joebot.Server.Registry.{registry, registry_of, Change, enters, entered, entry_of}
use joebot.Server.Registry.Heap.{registry_of-append, registry_of-update_absent, has_entry-lacks}
use joebot.Server.Sound.{IsSound}
use joebot.Server.Startup.{accept_client}
use joebot.Slices.{Slice, visible, append_one}
use joebot.Slices.Removal.{over}

-- The cells behind the visible ones.
abbrev pub behind : Slice ℕ → List ℕ
behind l = drop l.len l.cells

take-drop : (n : ℕ) (xs : List ℕ) → take n xs ++ drop n xs ≡ xs
take-drop zero xs = refl
take-drop (suc n) [] = refl
take-drop (suc n) (x ∷ xs) = ap (λ t. x ∷ t) (take-drop n xs)

length-take : (n : ℕ) (xs : List ℕ) → n ≤ length xs → length (take n xs) ≡ n
length-take zero xs h = refl
length-take (suc n) [] h = absurd (omega arith)
length-take (suc n) (x ∷ xs) h = ap suc (length-take n xs (omega arith))

pub over-visible : (l : Slice ℕ) → l.len ≤ length l.cells → l ≡ over (visible l) (behind l)
over-visible l h =
    ap₂ (λ (c : List ℕ) (n : ℕ). (record { cells = c; len = n })) (sym (take-drop l.len l.cells))
      (sym (length-take l.len l.cells h))

has-append_last : (a : ℕ) (xs : List ℕ) → has a (xs ++ (a ∷ [])) ≡ true
has-append_last a [] = ground arith
has-append_last a (x ∷ xs) = ground (arith, has-append_last a xs)

length-append_one :
    (l : Slice ℕ) (a : ℕ)
    → l.len ≤ length l.cells
    → (append_one l a).len ≤ length (append_one l a).cells
unfolding append_one
length-append_one l a h =
    omega
      (arith, length-append (visible l) (a ∷ drop (suc l.len) l.cells), length-take l.len l.cells h)

-- A new client at an address that is not in the list.
module _ (s : Server) (a : ℕ) (id : GoString) (v : IsSound s) (running : s.cancelled ≡ false)
    (new : has a (visible s.clients) ≡ false) (unknown : Lacks s id (visible s.clients)) where
  joined : Server
  joined = record s { heap = update s.heap a (new_client id); clients = append_one s.clients a }

  accept_client-joined : accept_client s a id ≡ joined
  unfolding accept_client add_client joined
  accept_client-joined = ap (λ b. if b then s else joined) running

  accepted :
      Accounted (visible s.clients ++ (a ∷ [])) (accept_client s a id)
      × (visible (accept_client s a id).clients ≡ visible s.clients ++ (a ∷ []))
  accepted =
      accept_client-Accounted (visible s.clients) (behind s.clients) s a id
        (not_has→count a (visible s.clients) new) (over-visible s.clients v.shape) running
        v.accounted

  alike : All (λ x. ids s.heap x ≡ ids (update s.heap a (new_client id)) x) (visible s.clients)
  alike = All-absent _ a (visible s.clients) (λ x other. ground (arith, other)) new

  named : ids (update s.heap a (new_client id)) a ≡ id
  unfolding new_client
  named = ap (λ b. (if b then new_client id else s.heap a).id) (==_refl a)

  Distinct-joined : Distinct (ids (update s.heap a (new_client id))) (visible s.clients ++ (a ∷ []))
  Distinct-joined =
      Distinct-append (update s.heap a (new_client id)) a (visible s.clients)
        (Distinct-agree (ids s.heap) _ (visible s.clients) alike v.distinct)
        (All-map2 _ _ _ (visible s.clients) (λ x e h. ap₂ str_eq (sym e) named ∙ h) alike unknown)

  seen_joined : visible joined.clients ≡ visible s.clients ++ (a ∷ [])
  seen_joined = sym (ap (λ (k : Server). visible k.clients) accept_client-joined) ∙ accepted.1

  books_joined : Accounted (visible joined.clients) joined
  books_joined =
      subst (λ xs. Accounted xs joined) (sym seen_joined)
        (subst (λ k. Accounted (visible s.clients ++ (a ∷ [])) k) accept_client-joined accepted.0)

  registered : registry joined ≡ registry s ++ (record { id = id; tunnels = [] } ∷ [])
  unfolding joined new_client
  registered =
      ap (λ xs. registry_of joined.heap xs) seen_joined
      ∙ registry_of-append joined.heap (visible s.clients) (a ∷ [])
      ∙ ap₂ (λ xs ys. xs ++ ys)
          (registry_of-update_absent s.heap a (new_client id) (visible s.clients)
            (not_has→count a (visible s.clients) new))
          (ap (λ b. entry_of (if b then new_client id else s.heap a) ∷ []) (==_refl a))

  -- A connection with an ID that no client has, at an address that none has, enters the registry.
  pub accept_client-IsSound :
      IsSound (accept_client s a id)
      × Change (registry s) (registry (accept_client s a id)) (enters id)
      × (has a (visible (accept_client s a id).clients) ≡ true)
  accept_client-IsSound =
      subst
        (λ k.
          IsSound k
          × Change (registry s) (registry k) (enters id)
          × (has a (visible k.clients) ≡ true))
        (sym accept_client-joined)
        (
          record {
            accounted = books_joined;
            shape = unfold joined in (length-append_one s.clients a v.shape);
            distinct =
                subst (λ xs. Distinct (ids joined.heap) xs) (sym seen_joined)
                  (unfold joined in Distinct-joined);
            in_turn = unfold joined in v.in_turn;
          },
          entered id (has_entry-lacks id s.heap (visible s.clients) unknown) registered,
          subst (λ xs. has a xs ≡ true) (sym seen_joined) (has-append_last a (visible s.clients)),
        )
