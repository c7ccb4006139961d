-- ===== src/Handler.antt =====
-- include/IHandler.hpp and include/IHandlerImpl.hpp: a handler of bytes made from a function on tables. The results' `Pack`
-- is code of the instance, so it is an argument.
use zmq_ipc.Prelude.{ℕ, ◌≡◌, refl, Option, List, if◌then◌else◌}
use zmq_ipc.FlatBuffers.{FlatBuffers}
use zmq_ipc.Dial.{wrapper}

-- IHandler: its method `handle`, from the bytes of a request to those of a response
pub record IHandler : Type 0 where
  pub on_bytes : List ℕ → List ℕ

module _ (fb : FlatBuffers) {Res : Type 0} where
  -- HandlerImpl::handle
  unfoldable pub handle : (fb.Table → Res) → (Res → fb.Builder → ℕ × fb.Builder) → List ℕ → List ℕ
  handle func pack bytes =
      let res = func (fb.get_root bytes) in
      let (res_offset, b) = pack res fb.new_builder in fb.get_buffer (fb.finish res_offset b)

  -- HandlerImpl, by its function and the results' `Pack`
  unfoldable pub handler_impl : (fb.Table → Res) → (Res → fb.Builder → ℕ × fb.Builder) → IHandler
  unfolding handle
  handler_impl func pack = record { on_bytes = handle func pack }

-- Unlike a method that a peer registers, a handler does not verify its bytes: the two give the same response on bytes
-- that verify, and on others the registered method leaves the response as it was.
pub wrapper-handle :
    (fb : FlatBuffers) {Res : Type 0} (verify : fb.Table → fb.Verifier → Option fb.Verifier)
    (func : fb.Table → Res) (pack : Res → fb.Builder → ℕ × fb.Builder) (bytes out : List ℕ)
    → wrapper fb verify (λ t. pack (func t)) bytes out
      ≡ (if fb.verify_buffer verify (fb.verifier bytes) then handle fb func pack bytes else out)
unfolding wrapper handle
wrapper-handle fb verify func pack bytes out = refl
