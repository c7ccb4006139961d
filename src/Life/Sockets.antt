-- ===== src/Life/Sockets.antt =====
-- What callbacks and callers do to the sockets of a peer: nothing.
use zmq_ipc.Prelude.{ℕ, ◌≡◌, refl, some, List, nat_eq}
use zmq_ipc.FlatBuffers.{FlatBuffers}
use zmq_ipc.Nng.{NngCall}
use zmq_ipc.Nng.Sockets.{open_sockets, after_call}
use zmq_ipc.Peer.State.{Peer, called, EndsIn}
use zmq_ipc.Peer.Pending.{generate_request_id, make_promise, register_pending, erase_pending}
use zmq_ipc.Peer.Pending.Laws.{IsSound}
use zmq_ipc.Peer.Receive.{Received, receive}
use zmq_ipc.Peer.Receive.Branches.{OfCallback}
use zmq_ipc.Network.{
  Ask, Caller, Move, takes, allocates, has_no_memory, registers, sends, fails, wakes, expires,
  erases,
}
use zmq_ipc.Peer.Call.Callbacks.{OnlyCalls, receive-WithSound}
use zmq_ipc.Peer.State.{Outcome}

-- The peer has `n` sockets open, and has closed none twice.
abbrev pub Opens : ℕ → Peer → Type 0
Opens n s = open_sockets s.calls ≡ some n

quiet-Opens :
    (n : ℕ) (c : NngCall) (s : Peer) → after_call c n ≡ some n → Opens n s → Opens n (called c s)
unfolding open_sockets
quiet-Opens n c s q h = rw (h, q) refl

callback_quiet : {a : ℕ} {c : NngCall} (n : ℕ) → OfCallback a c → after_call c n ≡ some n
unfolding after_call
callback_quiet n OfCallback.fetches = refl
callback_quiet n OfCallback.receives = refl
callback_quiet n OfCallback.allocates = refl
callback_quiet n OfCallback.frees = refl
callback_quiet n OfCallback.sends = refl

abbrev pub SoundOpens : ℕ → Peer → Type 0
SoundOpens n s = IsSound s × Opens n s

pub receive-SoundOpens :
    (fb : FlatBuffers) (reply : Received → ℕ → List ℕ → List ℕ → Peer → Outcome Peer)
    → OnlyCalls reply
    → (n : ℕ) (e : Received) (s : Peer) → SoundOpens n s
    → EndsIn (SoundOpens n) (receive fb reply e s)
receive-SoundOpens fb reply only n e =
    receive-WithSound (Opens n) (λ i p r t k. k) fb reply only e
      λ c s of o. quiet-Opens n c s (callback_quiet n of) o

pub Move-Opens :
    {fb : FlatBuffers} {a : Ask} {x y : Caller} {s t : Peer} (n : ℕ)
    → Move fb a x s y t
    → Opens n s
    → Opens n t
unfolding generate_request_id register_pending make_promise erase_pending open_sockets after_call
Move-Opens n (takes _) h = h
Move-Opens n (allocates m) h = rw h refl
Move-Opens n (has_no_memory m rv _) h = rw h refl
Move-Opens n registers h = h
Move-Opens n sends h = rw h refl
Move-Opens n (fails rv _) h = rw h refl
Move-Opens n (wakes _) h = h
Move-Opens n (expires _) h = h
Move-Opens n erases h = h
