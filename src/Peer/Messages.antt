-- ===== src/Peer/Messages.antt =====
-- The two messages that the peers exchange, and what their receivers read in them.
use zmq_ipc.Prelude.{ℕ, ◌^◌, ◌<◌, List, arith, length}
use zmq_ipc.FlatBuffers.{FlatBuffers, FlatBuffersLaws, max_size}
use zmq_ipc.Rpc.{request, response, create_rpc_message}
use zmq_ipc.Rpc.Contents.{create_rpc_message-contents, Stores-keeps, Stores-new}
use zmq_ipc.Rpc.RoundTrip.{Carries, Carries-of_contents}

module _ (fb : FlatBuffers) where
  -- call_remote: the method's name, then the payload, then the table
  unfoldable pub request_buffer : ℕ → List ℕ → List ℕ → List ℕ
  request_buffer i name load =
      let (method_offset, b1) = fb.create_string name fb.new_builder in
      let (payload_offset, b2) = fb.create_vector load b1 in
      let (rpc_offset, b3) = create_rpc_message fb request i method_offset payload_offset b2 in
      fb.get_buffer (fb.finish rpc_offset b3)

  -- recv_cb: the payload, then the method's name, then the table
  unfoldable pub response_buffer : ℕ → List ℕ → List ℕ → List ℕ
  response_buffer i name load =
      let (payload_offset, b1) = fb.create_vector load fb.new_builder in
      let (method_offset, b2) = fb.create_string name b1 in
      let (resp_offset, b3) = create_rpc_message fb response i method_offset payload_offset b2 in
      fb.get_buffer (fb.finish resp_offset b3)

module _ {fb : FlatBuffers} (laws : FlatBuffersLaws fb) (i : ℕ) (name load : List ℕ)
    (fits : i < 2 ^ 32) where
  -- A receiver of a request that call_remote built, with an id below 2 ^ 32 and in a buffer of less than 2 ^ 31 - 1
  -- bytes, accepts it and reads back its type, id, method and payload.
  pub request_buffer-Carries :
      length (request_buffer fb i name load) < max_size
      → Carries fb (request_buffer fb i name load) request i name load
  unfolding request_buffer
  request_buffer-Carries small =
      let st = laws.create_string_stores name _ laws.new_builder_pending in
      let st' = laws.create_vector_stores load _ st.closed in
      Carries-of_contents laws request i name load _
        (create_rpc_message-contents laws request i _ _ name load _ (omega arith) fits st'.closed
          (Stores-keeps laws _ _ st' (Stores-new laws st)) st.positive (Stores-new laws st')
          st'.positive)
        small

  -- A receiver of a response that recv_cb built, with an id below 2 ^ 32 and in a buffer of less than 2 ^ 31 - 1
  -- bytes, accepts it and reads back its type, id, method and payload.
  pub response_buffer-Carries :
      length (response_buffer fb i name load) < max_size
      → Carries fb (response_buffer fb i name load) response i name load
  unfolding response_buffer
  response_buffer-Carries small =
      let st = laws.create_vector_stores load _ laws.new_builder_pending in
      let st' = laws.create_string_stores name _ st.closed in
      Carries-of_contents laws response i name load _
        (create_rpc_message-contents laws response i _ _ name load _ (omega arith) fits st'.closed
          (Stores-new laws st') st'.positive (Stores-keeps laws _ _ st' (Stores-new laws st))
          st.positive)
        small
