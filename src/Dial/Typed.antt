-- ===== src/Dial/Typed.antt =====
-- A method on the generated tables, from its registration to the response it gives.
use zmq_ipc.Prelude.{ℕ, ◌<◌, ◌≡◌, ◌∙◌, sym, subst, ap, List, length, bytes_eq}
use zmq_ipc.FlatBuffers.{FlatBuffers, FlatBuffersLaws, max_size}
use zmq_ipc.Peer.State.{Peer, HandlerFunc}
use zmq_ipc.Dial
use zmq_ipc.Dial.Methods.{dispatch_registered}
use zmq_ipc.Listener
use zmq_ipc.Params.Reads.{Reads}
use zmq_ipc.Params.Kinds.{
  Kind, Value, Fits, seen, request_table, response_table, request_of, response_of,
}
use zmq_ipc.Params.Tables.{request_table-Reads, response_table-Reads}

module _ (fb : FlatBuffers) (q r : Kind) (f : Value q → Value r) where
  -- a handler that reads a request of the kind `q` and answers with a response of the kind `r`
  abbrev pub typed_handler : fb.Table → fb.Builder → ℕ × fb.Builder
  typed_handler t = (response_table fb r).create (f ((request_table fb q).value t))

  -- what register_method makes of it, in either class
  abbrev pub dial_wrapper : HandlerFunc
  dial_wrapper = Dial.wrapper fb (request_table fb q).verify typed_handler

  abbrev pub listener_wrapper : HandlerFunc
  listener_wrapper = Listener.wrapper fb (request_table fb q).verify typed_handler

  -- the dialling peer with the method
  abbrev pub with_method : List ℕ → Peer → Peer
  with_method name s = Dial.register_method fb (request_table fb q).verify name typed_handler s

  abbrev pub listener_with_method : List ℕ → Peer → Peer
  listener_with_method name s =
      Listener.register_method fb (request_table fb q).verify name typed_handler s

module _ {fb : FlatBuffers} (laws : FlatBuffersLaws fb) (q r : Kind) (f : Value q → Value r)
    (x : Value q) (fits : Fits q x) (small : length (request_of fb q x) < max_size) where
  -- On the buffer of a request the method gives the buffer of the response.
  pub dial_wrapper-response_of :
      (out : List ℕ)
      → dial_wrapper fb q r f (request_of fb q x) out ≡ response_of fb r (f (seen q x))
  unfolding Dial.wrapper
  dial_wrapper-response_of out =
      let asked = request_table-Reads laws fb.new_builder laws.new_builder_pending q x fits small in
      rw asked.verified (ap (λ v. response_of fb r (f v)) asked.valued)

  pub listener_wrapper-response_of :
      (out : List ℕ)
      → listener_wrapper fb q r f (request_of fb q x) out ≡ response_of fb r (f (seen q x))
  unfolding Listener.wrapper
  listener_wrapper-response_of out =
      let asked = request_table-Reads laws fb.new_builder laws.new_builder_pending q x fits small in
      rw asked.verified (ap (λ v. response_of fb r (f v)) asked.valued)

  pub response_of-Reads :
      Fits r (f (seen q x))
      → length (response_of fb r (f (seen q x))) < max_size
      → Reads fb
          (response_table fb r).verify
          (response_table fb r).value
          (seen r (f (seen q x)))
          (response_of fb r (f (seen q x)))
  response_of-Reads fits' small' =
      response_table-Reads laws fb.new_builder laws.new_builder_pending r (f (seen q x)) fits'
        small'

  -- A method on two generated tables that computes `f`, called with a request for `x` by the name it was
  -- registered under, gives a response that verifies and whose value is that of `f` at the value that the
  -- method reads, where request and response are below the size limit.
  pub dispatch-Reads :
      (name out : List ℕ) (s : Peer)
      → Fits r (f (seen q x))
      → length (response_of fb r (f (seen q x))) < max_size
      → Reads fb
          (response_table fb r).verify
          (response_table fb r).value
          (seen r (f (seen q x)))
          (Dial.dispatch (with_method fb q r f name s) name (request_of fb q x) out)
  dispatch-Reads name out s fits' small' =
      subst (Reads fb _ _ _)
        (sym (
          dispatch_registered fb _ _ name (request_of fb q x) out s ∙ dial_wrapper-response_of out))
        (response_of-Reads fits' small')
