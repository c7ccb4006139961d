-- ===== src/Peer/Call/Callbacks.antt =====
-- A call whose gaps are filled by the receive callbacks of its own peer.
use zmq_ipc.Prelude.{
  ℕ, ◌≡◌, true, inl, inr, Option, Option-cases, nat_eq, List, [], ◌∷◌, nat_beq, All,
}
use zmq_ipc.FlatBuffers.{FlatBuffers}
use zmq_ipc.Rpc.{response, type, id, payload}
use zmq_ipc.Peer.State.{Peer, Outcome, done, EndsIn, EndsIn-bind, ◌>>=◌}
use zmq_ipc.Peer.Pending.{resolve_pending}
use zmq_ipc.Peer.Pending.Laws.{
  IsSound, IsSound-called, resolved, resolved-IsSound, resolve_pending-some, resolve_pending-none,
  resolve_pending-EndsIn,
}
use zmq_ipc.Prelude.Dict.{find}
use zmq_ipc.Peer.Pending.Tracks.{Tracks, Tracks-called, resolve_pending-Tracks}
use zmq_ipc.Peer.Receive.{Received, receive, handle_response, payload_bytes}
use zmq_ipc.Peer.Receive.Branches.{KeptBy, KeptBy-all, receive-EndsIn}
use zmq_ipc.Peer.Call.{Gap, Calling}
use zmq_ipc.Peer.Call.Ends.{Respect}

-- A way of replying that only calls nng, and so keeps what such calls keep.
abbrev pub OnlyCalls : (Received → ℕ → List ℕ → List ℕ → Peer → Outcome Peer) → Type 1
OnlyCalls reply =
    (Q : Peer → Type 0) (e : Received)
    → KeptBy e.aio Q
    → (i : ℕ) (name resp : List ℕ) (s : Peer) → Q s
    → EndsIn Q (reply e i name resp s)

module _ (fb : FlatBuffers) (reply : Received → ℕ → List ℕ → List ℕ → Peer → Outcome Peer) where
  -- The callbacks that run one after another.
  unfoldable pub run_callbacks : List Received → Peer → Outcome Peer
  run_callbacks [] s = done s
  run_callbacks (e ∷ es) s = receive fb reply e s >>= run_callbacks es

  -- A call whose gaps are filled by callbacks.
  abbrev pub among : (Gap → List Received) → Calling → Calling
  among es e = record e { others = λ g. run_callbacks (es g) }

-- A property of a peer with a sound table: what calls of nng keep, and what does not depend on the table of pending
-- requests, a callback keeps.
module _ (P : Peer → Type 0)
    (same : (i p : ℕ) (r : Option (List ℕ)) (s : Peer) → P s → P (resolved i p r s)) where
  abbrev WithSound : Peer → Type 0
  WithSound s = IsSound s × P s

  resolve_pending-WithSound :
      (i : ℕ) (r : Option (List ℕ)) (s : Peer)
      → WithSound s
      → EndsIn WithSound (resolve_pending i r s)
  resolve_pending-WithSound i r s (h, k) = elim (Option-cases (find i s.pending_requests)) [
    | inl e ↦ rw (resolve_pending-none i r s e) (h, k)
    | inr (p, e) ↦
        rw (resolve_pending-some i p r s h e) (resolved-IsSound i p r s h e, same i p r s k)
  ]

  pub receive-WithSound :
      (fb : FlatBuffers) (reply : Received → ℕ → List ℕ → List ℕ → Peer → Outcome Peer)
      → OnlyCalls reply
      → (e : Received) → KeptBy e.aio P
      → (s : Peer) → IsSound s × P s
      → EndsIn (λ t. IsSound t × P t) (receive fb reply e s)
  unfolding handle_response
  receive-WithSound fb reply only e keeps =
      let kept : KeptBy e.aio WithSound = λ c s of (h, k). (IsSound-called c s h, keeps c s of k) in
      receive-EndsIn fb reply e WithSound kept (only WithSound e kept)
        λ s _. resolve_pending-WithSound _ _ s

-- If the message is a response to request `i`, then its payload has `P`.
abbrev pub Answers : FlatBuffers → ℕ → (Option (List ℕ) → Type 0) → Received → Type 0
Answers fb i P e =
    nat_beq (type fb (fb.get_root e.body)) response ≡ true
    → id fb (fb.get_root e.body) ≡ i
    → P (payload_bytes fb (payload fb (fb.get_root e.body)))

module _ (fb : FlatBuffers) (reply : Received → ℕ → List ℕ → List ℕ → Peer → Outcome Peer)
    (only : OnlyCalls reply) (i : ℕ) (P : Option (List ℕ) → Type 0) where
  receive-IsSound : (e : Received) (s : Peer) → IsSound s → EndsIn IsSound (receive fb reply e s)
  unfolding handle_response
  receive-IsSound e =
      receive-EndsIn fb reply e IsSound (KeptBy-all _ _ IsSound-called)
        (only IsSound e (KeptBy-all _ _ IsSound-called)) λ s _. resolve_pending-EndsIn _ _ s

  pub receive-Tracks :
      (p : ℕ) (e : Received)
      → Answers fb i P e
      → (s : Peer) → Tracks i p P s
      → EndsIn (Tracks i p P) (receive fb reply e s)
  unfolding handle_response
  receive-Tracks p e fits =
      receive-EndsIn fb reply e (Tracks i p P) (KeptBy-all _ _ (Tracks-called i p P))
        (only (Tracks i p P) e (KeptBy-all _ _ (Tracks-called i p P)))
        λ s q. resolve_pending-Tracks i p P _ _ s (fits q)

  run_callbacks-EndsIn :
      (Q : Peer → Type 0) (es : List Received)
      → All (λ e. (s : Peer) → Q s → EndsIn Q (receive fb reply e s)) es
      → (s : Peer) → Q s
      → EndsIn Q (run_callbacks fb reply es s)
  unfolding run_callbacks
  run_callbacks-EndsIn Q [] ks s h = h
  run_callbacks-EndsIn Q (e ∷ es) (k, ks) s h =
      EndsIn-bind Q Q _ _ (run_callbacks-EndsIn Q es ks) (k s h)

  All-IsSound :
      (es : List Received)
      → All (λ e. (s : Peer) → IsSound s → EndsIn IsSound (receive fb reply e s)) es
  All-IsSound [] = tt
  All-IsSound (e ∷ es) = (receive-IsSound e, All-IsSound es)

  All-track :
      (p : ℕ) (es : List Received)
      → All (Answers fb i P) es
      → All (λ e. (s : Peer) → Tracks i p P s → EndsIn (Tracks i p P) (receive fb reply e s)) es
  All-track p [] h = tt
  All-track p (e ∷ es) (h, hs) = (receive-Tracks p e h, All-track p es hs)

  pub callbacks-Respect :
      (es : Gap → List Received) (e : Calling)
      → ((g : Gap) → All (Answers fb i P) (es g))
      → Respect (among fb reply es e) i P
  callbacks-Respect es e fits = record {
    before = run_callbacks-EndsIn IsSound (es Gap.generated) (All-IsSound (es Gap.generated));
    after = λ p g. run_callbacks-EndsIn (Tracks i p P) (es g) (All-track p (es g) (fits g));
  }
