-- ===== src/Handler/Registered.antt =====
-- What all the handlers that src/joebot/handler/handler.go has registered do to the state.
use joebot.Prelude.{
  ℕ, ◌≡◌, refl, inl, inr, Option-cases, Bool-cases, none, some, List, [], ◌∷◌, ◌==◌, Result-cases,
  All, some-eq, GoError, Option,
}
use mathlib.Core.Path.{subst}
use joebot.Handler.{
  HandlerFunc, IncomingRequestHandler, Logged, find_handler, read_request, log_result, serve_stream,
}
use joebot.Task.{Delivery}

-- A relation between the state before and the state after a handler.
abbrev pub Respects : {S : Type 0} → (S → S → Type 0) → HandlerFunc S → Type 0
Respects {S} R f = (body : List ℕ) (rest : List Delivery) (s : S) → R s (f body rest s).0

find_handler-All :
    {S : Type 0} (P : HandlerFunc S → Type 0) (code : ℕ) (hs : List (ℕ × HandlerFunc S))
    (f : HandlerFunc S)
    → All (λ x. P x.1) hs
    → find_handler code hs ≡ some f
    → P f
unfolding find_handler
find_handler-All P code [] f h e = cc
find_handler-All P code (x ∷ hs) f h e = elim (Bool-cases (x.0 == code)) [
  | inl here ↦ subst P (some-eq (rw here at e)) h.0
  | inr there ↦ find_handler-All P code hs f h.1 (rw there at e)
]

pub log_result-state :
    {S : Type 0} (log : List GoError) (x : S × Option GoError) → (log_result log x).state ≡ x.0
log_result-state log (s, none) = refl
log_result-state log (s, some e) = refl

-- When every registered handler respects a reflexive relation, so does the serving of any stream.
pub serve_stream-Respects :
    {S : Type 0} (R : S → S → Type 0) (h : IncomingRequestHandler S) (stream : List Delivery)
    (l : Logged S)
    → ((s : S) → R s s)
    → All (λ x. Respects R x.1) h.handlers
    → R l.state (serve_stream h stream l).state
unfolding serve_stream
serve_stream-Respects R h stream l same all = elim (Result-cases (read_request stream)) [
  | inr (e, fails) ↦ rw (fails, serve_stream) (same l.state)
  | inl ((code, body, rest), reads) ↦ elim (Option-cases (find_handler code h.handlers)) [
    | inl missing ↦ rw (reads, missing, serve_stream) (same l.state)
    | inr (f, found) ↦
        rw (reads, found, serve_stream)
          (rw (log_result-state l.log (f body rest l.state))
            (find_handler-All (λ g. Respects R g) code h.handlers f all found body rest l.state))
  ]
]
