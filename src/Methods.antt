-- ===== src/Methods.antt =====
-- Registered methods, in either class (include/NngUdsRpcPeerDial.hpp, include/NngUdsRpcPeerListener.hpp).
use zmq_ipc.Prelude.{ℕ, ◌≡◌, refl, ap, fun_ext, true, Bool-cases, inl, inr, Option, List}
use zmq_ipc.FlatBuffers.{FlatBuffers}
use zmq_ipc.Peer.State.{Peer, with_handler}
use zmq_ipc.Params.Reads.{buffer_of}
use zmq_ipc.Dial
use zmq_ipc.Listener

module _ (fb : FlatBuffers) (verify : fb.Table → fb.Verifier → Option fb.Verifier)
    (g h : fb.Table → fb.Builder → ℕ × fb.Builder)
    (alike : (buf : List ℕ)
      → fb.verify_buffer verify (fb.verifier buf) ≡ true
      → buffer_of fb (g (fb.get_root buf) fb.new_builder)
        ≡ buffer_of fb (h (fb.get_root buf) fb.new_builder)) where
  dial_wrapper-alike : Dial.wrapper fb verify g ≡ Dial.wrapper fb verify h
  unfolding Dial.wrapper
  dial_wrapper-alike = fun_ext (λ req. fun_ext (λ out.
      elim (Bool-cases (fb.verify_buffer verify (fb.verifier req))) [
        | inl yes_verified ↦ rw yes_verified (alike req yes_verified)
        | inr refused ↦ rw refused refl
      ]))

  listener_wrapper-alike : Listener.wrapper fb verify g ≡ Listener.wrapper fb verify h
  unfolding Listener.wrapper
  listener_wrapper-alike = fun_ext (λ req. fun_ext (λ out.
      elim (Bool-cases (fb.verify_buffer verify (fb.verifier req))) [
        | inl yes_verified ↦ rw yes_verified (alike req yes_verified)
        | inr refused ↦ rw refused refl
      ]))

  -- A method sees nothing but requests that pass the verifier of its type: two handlers that answer alike on the
  -- roots of such buffers, whatever they do on other bytes, make the same peer of either class when they are
  -- registered.
  pub register_method-alike :
      (name : List ℕ) (s : Peer)
      → (Dial.register_method fb verify name g s ≡ Dial.register_method fb verify name h s)
        × (Listener.register_method fb verify name g s
            ≡ Listener.register_method fb verify name h s)
  unfolding Dial.register_method Listener.register_method
  register_method-alike name s = (
    ap (λ f. with_handler name f s) dial_wrapper-alike,
    ap (λ f. with_handler name f s) listener_wrapper-alike,
  )
