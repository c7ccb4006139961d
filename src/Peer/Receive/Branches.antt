-- ===== src/Peer/Receive/Branches.antt =====
-- The receive callback, branch by branch, and what it keeps whatever arrives.
use zmq_ipc.Prelude.{
  ℕ, ◌≡◌, ◌⊎◌, refl, true, false, Bool-cases, inl, inr, Option, none, some, List, [], nat_beq,
  bytes_eq, nat_eq,
}
use zmq_ipc.Prelude.Dict.{find}
use zmq_ipc.FlatBuffers.{FlatBuffers}
use zmq_ipc.Nng.{NngCall, aio_get_msg, recv_aio, msg_alloc, msg_free, sendmsg}
use zmq_ipc.Rpc.{request, response, type, method, payload, verify}
use zmq_ipc.Rpc.RoundTrip.{Carries}
use zmq_ipc.Peer.State.{
  Peer, HandlerFunc, Outcome, done, fault, null_pointer, called, EndsIn, EndsIn-map, ◌>>=◌,
}
use zmq_ipc.Peer.Pending.{resolve_pending}
use zmq_ipc.Peer.Receive.{
  Received, receive, recv_message, handle_message, handle_request, handle_response, serve_named,
  serve_found, call_handler,
}

-- the state after the callback has taken its message
abbrev pub taken : Received → Peer → Peer
taken e s = called (aio_get_msg e.msg) s

-- and after it has freed the message and started the next receive
abbrev pub finished : Received → Peer → Peer
finished e s = called (recv_aio e.aio) (called (msg_free e.msg) s)

module _ (fb : FlatBuffers) (reply : Received → ℕ → List ℕ → List ℕ → Peer → Outcome Peer) where
  pub receive_of_response :
      (e : Received) (s : Peer) (i : ℕ) (name load : List ℕ)
      → e.result ≡ 0
      → Carries fb e.body response i name load
      → receive fb reply e s
        ≡ (do t ← resolve_pending i (some load) (taken e s); done (finished e t))
  unfolding receive recv_message handle_message handle_response
  receive_of_response e s i name load ok c =
      rw (ok, c.verified, c.typed, c.numbered, c.loaded, c.load_bytes)

  pub receive_of_request :
      (e : Received) (s : Peer) (i : ℕ) (name load : List ℕ) (handler : HandlerFunc)
      → e.result ≡ 0
      → Carries fb e.body request i name load
      → find name s.method_map ≡ some handler
      → receive fb reply e s
        ≡ (do t ← reply e i name (handler load []) (taken e s); done (finished e t))
  unfolding receive recv_message handle_message handle_request serve_named serve_found call_handler
  receive_of_request e s i name load handler ok c found =
      rw (ok, c.verified, c.typed, c.named, c.name_bytes, found, c.loaded, c.load_bytes, c.numbered)

  pub receive_of_unknown :
      (e : Received) (s : Peer) (i : ℕ) (name load : List ℕ)
      → e.result ≡ 0
      → Carries fb e.body request i name load
      → find name s.method_map ≡ none
      → receive fb reply e s ≡ done (finished e (taken e s))
  unfolding receive recv_message handle_message handle_request serve_named serve_found
  receive_of_unknown e s i name load ok c missing =
      rw (ok, c.verified, c.typed, c.named, c.name_bytes, missing)

  -- A request that passes the verifier may have no method: it is read through a null pointer.
  receive_of_nameless :
      (e : Received) (s : Peer)
      → e.result ≡ 0
      → fb.verify_buffer (verify fb) (fb.verifier e.body) ≡ true
      → type fb (fb.get_root e.body) ≡ request
      → method fb (fb.get_root e.body) ≡ none
      → receive fb reply e s ≡ fault null_pointer
  unfolding receive recv_message handle_message handle_request serve_named
  receive_of_nameless e s ok v t m = rw (ok, v, t, m)

  pub receive_of_failed :
      (e : Received) (s : Peer)
      → nat_beq e.result 0 ≡ false
      → receive fb reply e s ≡ done (called (recv_aio e.aio) s)
  unfolding receive
  receive_of_failed e s ko = rw ko

  pub receive_of_refused :
      (e : Received) (s : Peer)
      → e.result ≡ 0
      → fb.verify_buffer (verify fb) (fb.verifier e.body) ≡ false
      → receive fb reply e s ≡ done (taken e s)
  unfolding receive recv_message
  receive_of_refused e s ok v = rw (ok, v)

  -- To prove `Q` of every ending, prove it of each branch. A null pointer is read for a request only, where the
  -- method is left out or the payload is.
  module _ {ℓ} (Q : Outcome Peer → Type ℓ) (e : Received) (s : Peer)
      (failed : Q (done (called (recv_aio e.aio) s)))
      (refused : fb.verify_buffer (verify fb) (fb.verifier e.body) ≡ false → Q (done (taken e s)))
      (ignored : Q (done (finished e (taken e s))))
      (null : nat_beq (type fb (fb.get_root e.body)) request ≡ true
        → (method fb (fb.get_root e.body) ≡ none) ⊎ (payload fb (fb.get_root e.body) ≡ none)
        → Q (fault null_pointer))
      (replied : (i : ℕ) (name load : List ℕ) (handler : HandlerFunc)
        → find name s.method_map ≡ some handler
        → Q (reply e i name (handler load []) (taken e s) >>= λ t. done (finished e t)))
      (resolved : nat_beq (type fb (fb.get_root e.body)) response ≡ true
        → Q (
            handle_response fb reply (fb.get_root e.body) (taken e s) >>= λ t.
            done (finished e t))) where
    abbrev root : fb.Table
    root = fb.get_root e.body

    module _ (asked : nat_beq (type fb root) request ≡ true) where
      call_handler_cases :
          (name : List ℕ) (handler : HandlerFunc) (v : Option fb.Vec)
          → find name s.method_map ≡ some handler
          → payload fb root ≡ v
          → Q (call_handler fb reply e root name handler v (taken e s) >>= λ u. done (finished e u))
      unfolding call_handler
      call_handler_cases name handler none found left_out = null asked (inr left_out)
      call_handler_cases name handler (some v) found there = replied _ name _ handler found

      serve_found_cases :
          (name : List ℕ) (h : Option HandlerFunc)
          → find name s.method_map ≡ h
          → Q (serve_found fb reply e root name h (taken e s) >>= λ u. done (finished e u))
      unfolding serve_found
      serve_found_cases name none found = ignored
      serve_found_cases name (some f) found = call_handler_cases name f (payload fb root) found refl

      serve_named_cases :
          (p : Option fb.Str)
          → method fb root ≡ p
          → Q (serve_named fb reply e root p (taken e s) >>= λ u. done (finished e u))
      unfolding serve_named
      serve_named_cases none left_out = null asked (inl left_out)
      serve_named_cases (some p) there = serve_found_cases _ _ refl

    handle_message_cases :
        Q (handle_message fb reply e root (taken e s) >>= λ u. done (finished e u))
    unfolding handle_message handle_request
    handle_message_cases = elim (Bool-cases (nat_beq (type fb root) request)) [
      | inl q ↦ rw q (serve_named_cases q _ refl)
      | inr q ↦ rw q (elim (Bool-cases (nat_beq (type fb root) response)) [
        | inl r ↦ rw r (resolved r)
        | inr r ↦ rw r ignored
      ])
    ]

    pub receive_cases : Q (receive fb reply e s)
    unfolding receive recv_message
    receive_cases = elim (Bool-cases (nat_beq e.result 0)) [
      | inl q ↦ rw q (elim (Bool-cases (fb.verify_buffer (verify fb) (fb.verifier e.body))) [
        | inl v ↦ rw v handle_message_cases
        | inr v ↦ rw v (refused v)
      ])
      | inr q ↦ rw q failed
    ]

-- The calls of nng that a callback makes, which starts no receive but on its own aio `a`.
pub data OfCallback (a : ℕ) : NngCall → Type 0 where
  fetches : {m : ℕ} → OfCallback a (aio_get_msg m)
  receives : OfCallback a (recv_aio a)
  allocates : {m rv : ℕ} → OfCallback a (msg_alloc m rv)
  frees : {m : ℕ} → OfCallback a (msg_free m)
  sends : {m rv : ℕ} {body : List ℕ} → OfCallback a (sendmsg m body rv)

-- A property that such calls keep.
abbrev pub KeptBy : ℕ → (Peer → Type 0) → Type 0
KeptBy a P = (c : NngCall) (s : Peer) → OfCallback a c → P s → P (called c s)

pub KeptBy-all :
    (a : ℕ) (P : Peer → Type 0) → ((c : NngCall) (s : Peer) → P s → P (called c s)) → KeptBy a P
KeptBy-all a P keeps c s of h = keeps c s h

-- Whatever arrives, a property that these calls, `reply` and the handing over of a response keep is kept.
module _ (fb : FlatBuffers) (reply : Received → ℕ → List ℕ → List ℕ → Peer → Outcome Peer)
    (e : Received) (P : Peer → Type 0) (called_keeps : KeptBy e.aio P)
    (reply_keeps : (i : ℕ) (name resp : List ℕ) (s : Peer) → P s → EndsIn P (reply e i name resp s))
    (response_keeps : (s : Peer)
      → nat_beq (type fb (fb.get_root e.body)) response ≡ true
      → P s
      → EndsIn P (handle_response fb reply (fb.get_root e.body) s)) where
  finish_keeps : (o : Outcome Peer) → EndsIn P o → EndsIn P (o >>= λ t. done (finished e t))
  finish_keeps o =
      EndsIn-map P P (finished e) o
        (λ t h. called_keeps (recv_aio e.aio) _ receives (called_keeps (msg_free e.msg) t frees h))

  pub receive-EndsIn : (s : Peer) → P s → EndsIn P (receive fb reply e s)
  receive-EndsIn s h =
      let k = called_keeps (aio_get_msg e.msg) s fetches h in
      receive_cases fb reply (EndsIn P) e s (called_keeps (recv_aio e.aio) s receives h) (λ _. k)
        (finish_keeps (done (taken e s)) k) (λ _ _. tt)
        (λ i name load f _. finish_keeps _ (reply_keeps i name _ _ k))
        λ q. finish_keeps _ (response_keeps _ q k)
