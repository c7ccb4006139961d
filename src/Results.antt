-- ===== src/Results.antt =====
-- What the reader of a response sees that was made by a handler (include/IHandlerImpl.hpp) or by to_result_bytes
-- (include/rpc_response_utils.hpp).
use zmq_ipc.Prelude.{
  true, Option, ==-refl, bytes_eq, ℕ, ◌<◌, ◌≡◌, ◌∙◌, refl, sym, subst, false, none, some, List, ◌∷◌,
  ◌++◌, nat_beq, length, All,
}
use zmq_ipc.FlatBuffers.{FlatBuffers, FlatBuffersLaws, max_size}
use zmq_ipc.Peer.State.{Peer}
use zmq_ipc.Dial
use zmq_ipc.Listener
use zmq_ipc.Prelude.Dict.{find-assign}
use zmq_ipc.Dial.Methods.{dispatch_registered}
use zmq_ipc.Dial.Typed.{with_method, listener_with_method, dispatch-Reads}
use zmq_ipc.Handler.{handle, wrapper-handle}
use zmq_ipc.ResultBytes.{
  string_result_bytes, c_string_result_bytes, vector_result_bytes, object_result_bytes,
  c_string-string_result_bytes,
}
use zmq_ipc.Params.Reads.{Reads, buffer_of, bytes_of}
use zmq_ipc.Params.Kinds.{
  Kind, bytes, Value, Fits, seen, request_table, response_table, request_of, response_of,
}
use zmq_ipc.Params.Tables.{request_table-Reads, response_table-Reads}
use zmq_ipc.Params.Response.BytesResponse

-- On bytes that verify, a listening peer with the method of a handler dispatches what the handler writes.
listener_dispatch-handle :
    (fb : FlatBuffers) {Res : Type 0} (verify : fb.Table → fb.Verifier → Option fb.Verifier)
    (func : fb.Table → Res) (pack : Res → fb.Builder → ℕ × fb.Builder) (name req out : List ℕ)
    (s : Peer)
    → fb.verify_buffer verify (fb.verifier req) ≡ true
    → Listener.dispatch
        (Listener.register_method fb verify name (λ t. pack (func t)) s)
        name
        req
        out
      ≡ handle fb func pack req
unfolding Listener.dispatch Listener.register_method Listener.run_handler Listener.wrapper handle
listener_dispatch-handle fb verify func pack name req out s verified = rw (
  find-assign name name (Listener.wrapper fb verify (λ t. pack (func t))) s.method_map,
  ==-refl name,
  verified,
)

module _ {fb : FlatBuffers} (laws : FlatBuffersLaws fb) where
  -- A handler on two generated tables that computes `f`, given a request for `x`, writes a response that verifies
  -- and whose value is that of `f` at the value it reads; and it writes what a dialling and a listening peer with
  -- the method of the same function dispatch, where request and response are below the size limit.
  pub handle-Reads :
      (q r : Kind) (f : Value q → Value r) (x : Value q) (name out : List ℕ) (s : Peer)
      → Fits q x
      → Fits r (f (seen q x))
      → length (request_of fb q x) < max_size
      → length (response_of fb r (f (seen q x))) < max_size
      → Reads fb (response_table fb r).verify (response_table fb r).value (seen r (f (seen q x))) (
          handle fb
            (λ t. f ((request_table fb q).value t))
            (response_table fb r).create
            (request_of fb q x))
        × (handle fb
              (λ t. f ((request_table fb q).value t))
              (response_table fb r).create
              (request_of fb q x)
            ≡ Dial.dispatch (with_method fb q r f name s) name (request_of fb q x) out)
        × (handle fb
              (λ t. f ((request_table fb q).value t))
              (response_table fb r).create
              (request_of fb q x)
            ≡ Listener.dispatch (listener_with_method fb q r f name s) name (request_of fb q x) out)
  handle-Reads q r f x name out s fits fits' small small' =
      let asked = request_table-Reads laws fb.new_builder laws.new_builder_pending q x fits small in
      let func = λ (t : fb.Table). f ((request_table fb q).value t) in
      let same =
        dispatch_registered fb _ _ name (request_of fb q x) out s
        ∙ (wrapper-handle fb (request_table fb q).verify func (response_table fb r).create
              (request_of fb q x) out
            ∙ rw asked.verified refl) in
      (
        subst (Reads fb _ _ _) same
            (dispatch-Reads laws q r f x fits small name out s fits' small'),
        sym same,
        sym (
            listener_dispatch-handle fb (request_table fb q).verify func
              (response_table fb r).create name (request_of fb q x) out s asked.verified),
      )

  -- a BytesResponse whose value is such a vector
  abbrev pub response_with : ℕ × fb.Builder → List ℕ
  response_with (o, b) = buffer_of fb (BytesResponse.create fb o b)

  abbrev pub ReadsBytes : List ℕ → List ℕ → Type 0
  ReadsBytes s buf =
      Reads fb (BytesResponse.verify fb) (λ t. bytes_of fb (BytesResponse.value fb t)) (some s) buf

  module _ (b : fb.Builder) (idle : laws.pending b ≡ none) where
    vector-ReadsBytes :
        (s : List ℕ)
        → length (response_with (fb.create_vector s b)) < max_size
        → ReadsBytes s (response_with (fb.create_vector s b))
    unfolding BytesResponse.create_direct
    vector-ReadsBytes s small = response_table-Reads laws b idle bytes (some s) tt small

    -- A BytesResponse made by any of the specialisations of to_result_bytes passes its verifier and reads as the bytes
    -- `s` of the string, the vector or the object, whatever they are, and as those of a C string, `c`, up to
    -- its NUL, whatever follows that in memory, where it is below the size limit and the builder has no
    -- table open; `c` itself has no NUL.
    pub result_bytes-Reads :
        (s c rest : List ℕ)
        → length (response_with (fb.create_vector s b)) < max_size
        → length (response_with (fb.create_vector c b)) < max_size
        → All (λ x. nat_beq x 0 ≡ false) c
        → ReadsBytes s (response_with (string_result_bytes fb s b))
          × ReadsBytes c (response_with (c_string_result_bytes fb (c ++ 0 ∷ rest) b))
          × ReadsBytes s (response_with (vector_result_bytes fb s b))
          × ReadsBytes s (response_with (object_result_bytes fb s b))
    unfolding string_result_bytes vector_result_bytes object_result_bytes
    result_bytes-Reads s c rest small small' no_nul = (
      vector-ReadsBytes s small,
      subst (λ o. ReadsBytes c (response_with o))
          (sym (c_string-string_result_bytes fb c rest b no_nul)) (vector-ReadsBytes c small'),
      vector-ReadsBytes s small,
      vector-ReadsBytes s small,
    )
