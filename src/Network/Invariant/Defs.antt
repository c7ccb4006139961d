-- ===== src/Network/Invariant/Defs.antt =====
-- The invariant, and what it asks of the peers.
use zmq_ipc.Prelude.{ℕ, ◌^◌, ◌<◌, ◌≡◌, ◌⊎◌, Option, some, List, [], bytes_eq, length}
use zmq_ipc.Prelude.Dict.{find}
use zmq_ipc.FlatBuffers.{FlatBuffers, max_size}
use zmq_ipc.Nng.Sent.{Sent}
use zmq_ipc.Peer.State.{Peer, HandlerFunc, Outcome, done}
use zmq_ipc.Peer.Messages.{request_buffer, response_buffer}
use zmq_ipc.Peer.Pending.Laws.{IsSound}
use zmq_ipc.Peer.Receive.{Received}
use zmq_ipc.Peer.Call.Callbacks.{OnlyCalls}
use zmq_ipc.Network.{Offers, Ask, Side, other, Half, World}
use zmq_ipc.Network.Callers.{id_of, Ready}

-- What a peer's way of replying must do: call nng and no more, and send at most the response.
pub record Replies (fb : FlatBuffers) (reply : Received → ℕ → List ℕ → List ℕ → Peer → Outcome Peer)
    : Type 1 where
  pub only : OnlyCalls reply
  pub sends :
      (e : Received) (i : ℕ) (name resp body : List ℕ) (s t : Peer)
      → reply e i name resp s ≡ done t
      → Sent body t.calls
      → (body ≡ response_buffer fb i name resp) ⊎ Sent body s.calls

-- The result of call `a`: what a method that is registered under its name writes for its argument.
abbrev pub IsResult : Offers → Ask → Option (List ℕ) → Type 0
IsResult methods a r = (h : HandlerFunc) × (methods a.method_name h) × (r ≡ some (h a.req_buf []))

-- All messages fit into buffers.
pub record Fits (fb : FlatBuffers) (methods : Offers) (asks : ℕ → Ask) : Type 0 where
  pub asked :
      (k i : ℕ)
      → i < 2 ^ 32
      → length (request_buffer fb i (asks k).method_name (asks k).req_buf) < max_size
  pub told :
      (k i : ℕ) (h : HandlerFunc)
      → i < 2 ^ 32
      → methods (asks k).method_name h
      → length (response_buffer fb i (asks k).method_name (h (asks k).req_buf [])) < max_size

-- The ids that callers have taken were given out, each to one caller.
pub record Numbered (ids : ℕ → Option ℕ) (next : ℕ) : Type 0 where
  pub taken : (k i : ℕ) → ids k ≡ some i → i < next
  pub apart : (j k i : ℕ) → ids j ≡ some i → ids k ≡ some i → j ≡ k

-- `body` is the request of a caller that has taken an id.
abbrev pub IsRequest : FlatBuffers → (ℕ → Ask) → (ℕ → Option ℕ) → List ℕ → Type 0
IsRequest fb asks ids body =
    (k : ℕ) × (i : ℕ) × (ids k ≡ some i)
    × (body ≡ request_buffer fb i (asks k).method_name (asks k).req_buf)

-- `body` is the response to such a request, with what the method writes.
abbrev pub IsResponse : FlatBuffers → Offers → (ℕ → Ask) → (ℕ → Option ℕ) → List ℕ → Type 0
IsResponse fb methods asks ids body =
    (k : ℕ) × (i : ℕ) × (h : HandlerFunc) × (ids k ≡ some i)
    × (methods (asks k).method_name h)
    × (body ≡ response_buffer fb i (asks k).method_name (h (asks k).req_buf []))

abbrev pub ids_of : Half → ℕ → Option ℕ
ids_of h k = id_of (h.caller k)

-- What holds of one side, with the methods it may have and those of the other side, its calls and those of the other
-- side, and the ids of the other side's callers.
pub record HalfInv (fb : FlatBuffers) (methods theirs : Offers) (asks their_asks : ℕ → Ask)
    (their_ids : ℕ → Option ℕ) (h : Half) : Type 0 where
  pub sound : IsSound h.peer
  pub ready : (k : ℕ) → Ready (IsResult theirs (asks k)) (h.caller k) h.peer
  pub ids : Numbered (ids_of h) h.peer.next_request_id
  pub sends :
      (body : List ℕ)
      → Sent body h.peer.calls
      → IsRequest fb asks (ids_of h) body ⊎ IsResponse fb methods their_asks their_ids body
  pub served :
      (name : List ℕ) (g : HandlerFunc) → find name h.peer.method_map ≡ some g → methods name g

abbrev pub Inv : FlatBuffers → (Side → Offers) → (Side → ℕ → Ask) → World → Type 0
Inv fb methods asks w =
    (x : Side)
    → HalfInv fb (methods x) (methods (other x)) (asks x) (asks (other x)) (ids_of (w (other x)))
        (w x)
