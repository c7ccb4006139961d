-- ===== src/Peer/Receive/Direct.antt =====
-- The receive callback on any message that CreateRpcMessageDirect (include/rpc_generated.h) builds.
use zmq_ipc.Prelude.{
  ℕ, ◌^◌, ◌<◌, ◌≡◌, refl, ap, inl, inr, Option, Option-cases, none, some, List, [], nat_beq,
  bytes_eq, length, if◌then◌else◌,
}
use zmq_ipc.Prelude.Dict.{find}
use zmq_ipc.FlatBuffers.{FlatBuffers, FlatBuffersLaws, max_size}
use zmq_ipc.Rpc.{request, response, create_rpc_message_direct}
use zmq_ipc.Rpc.Direct.{Holds}
use zmq_ipc.Rpc.Creating.{create_rpc_message_direct-Holds}
use zmq_ipc.Rpc.RoundTrip.{text_of-some, bytes_of-some}
use zmq_ipc.Params.Reads.{text_of, bytes_of, buffer_of}
use zmq_ipc.Peer.State.{Peer, HandlerFunc, Outcome, done, fault, null_pointer, ◌>>=◌}
use zmq_ipc.Peer.Pending.{resolve_pending}
use zmq_ipc.Peer.Receive.{
  Received, receive, recv_message, handle_message, handle_request, handle_response, serve_named,
  serve_found, call_handler,
}
use zmq_ipc.Peer.Receive.Branches.{taken, finished}

module _ (reply : Received → ℕ → List ℕ → List ℕ → Peer → Outcome Peer) (e : Received) (i : ℕ) where
  -- A request, by the handler of its method and by its payload.
  abbrev pub served : List ℕ → Option HandlerFunc → Option (List ℕ) → Peer → Outcome Peer
  served name none load s = done s
  served name (some h) none s = fault null_pointer
  served name (some h) (some load) s = reply e i name (h load []) s

  abbrev pub requested : Option (List ℕ) → Option (List ℕ) → Peer → Outcome Peer
  requested none load s = fault null_pointer
  requested (some name) load s = served name (find name s.method_map) load s

  -- What a message means for a peer, by what it was built from.
  abbrev pub meant : ℕ → Option (List ℕ) → Option (List ℕ) → Peer → Outcome Peer
  meant ty name load s =
      if nat_beq ty request
      then requested name load s
      else if nat_beq ty response
      then resolve_pending i load s
      else done s

text_of-none : (fb : FlatBuffers) (p : Option fb.Str) → text_of fb p ≡ none → p ≡ none
text_of-none fb none h = refl
text_of-none fb (some p) h = cc

bytes_of-none : (fb : FlatBuffers) (p : Option fb.Vec) → bytes_of fb p ≡ none → p ≡ none
bytes_of-none fb none h = refl
bytes_of-none fb (some p) h = cc

module _ {fb : FlatBuffers} (reply : Received → ℕ → List ℕ → List ℕ → Peer → Outcome Peer)
    (e : Received) {ty i : ℕ} where
  handle_message-meant :
      (name load : Option (List ℕ)) (s : Peer)
      → Holds fb e.body ty i name load
      → handle_message fb reply e (fb.get_root e.body) s ≡ meant reply e i ty name load s
  unfolding handle_message handle_request handle_response serve_named serve_found call_handler
  handle_message-meant none none s h =
      rw (h.typed, h.numbered, text_of-none fb _ h.named, bytes_of-none fb _ h.loaded)
  handle_message-meant none (some load) s h =
      let (q, loaded, same) = bytes_of-some fb _ load h.loaded in
      rw (h.typed, h.numbered, text_of-none fb _ h.named, loaded, same)
  handle_message-meant (some name) none s h =
      let (p, named, same) = text_of-some fb _ name h.named in
      elim (Option-cases (find name s.method_map)) [
        | inl missing ↦ rw (h.typed, h.numbered, named, same, missing, bytes_of-none fb _ h.loaded)
        | inr (g, found) ↦ rw (h.typed, h.numbered, named, same, found, bytes_of-none fb _ h.loaded)
      ]
  handle_message-meant (some name) (some load) s h =
      let (p, named, same) = text_of-some fb _ name h.named in
      let (q, loaded, read) = bytes_of-some fb _ load h.loaded in
      elim (Option-cases (find name s.method_map)) [
        | inl missing ↦ rw (h.typed, h.numbered, named, same, missing, loaded, read)
        | inr (g, found) ↦ rw (h.typed, named, same, found, loaded, read, h.numbered)
      ]

  receive-meant :
      (name load : Option (List ℕ)) (s : Peer)
      → e.result ≡ 0
      → Holds fb e.body ty i name load
      → receive fb reply e s
        ≡ (do t ← meant reply e i ty name load (taken e s); done (finished e t))
  unfolding receive recv_message
  receive-meant name load s ok h =
      rw (ap (λ n. nat_beq n 0) ok, h.verified)
        (ap (λ o. o >>= λ t. done (finished e t)) (handle_message-meant name load (taken e s) h))

module _ {fb : FlatBuffers} (laws : FlatBuffersLaws fb)
    (reply : Received → ℕ → List ℕ → List ℕ → Peer → Outcome Peer) (ty i : ℕ)
    (name load : Option (List ℕ)) where
  -- A callback that receives a message which CreateRpcMessageDirect built does what the message's contents mean.
  -- A request without a method is read through a null pointer, and so is one without a payload if its
  -- method is registered; one for a method that is not registered is ignored, and any other answered
  -- with what the method's handler writes. A response, with a payload or without, is handed to the call that waits
  -- for its id, and a message of any other type ignored. Unless a pointer was null, the message is freed and
  -- the next receive started. The type is below 256, the id below 2 ^ 32, and the buffer below the size limit.
  pub receive-direct :
      (e : Received) (s : Peer)
      → ty < 256
      → i < 2 ^ 32
      → length e.body < max_size
      → e.result ≡ 0
      → e.body ≡ buffer_of fb (create_rpc_message_direct fb ty i name load fb.new_builder)
      → receive fb reply e s
        ≡ (do t ← meant reply e i ty name load (taken e s); done (finished e t))
  receive-direct e s ty_fits i_fits small ok is =
      receive-meant reply e {ty = ty} {i = i} name load s ok (
        rw is (create_rpc_message_direct-Holds laws ty i name load ty_fits i_fits (rw is at small)))
