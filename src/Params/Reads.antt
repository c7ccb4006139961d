-- ===== src/Params/Reads.antt =====
-- What the reader of a table with one field sees of a buffer.
use zmq_ipc.Prelude.{ℕ, ◌≡◌, true, Option, none, some, List}
use zmq_ipc.FlatBuffers.{FlatBuffers}

-- The buffer passes the table's verifier, and its accessor returns `x`.
pub record Reads (fb : FlatBuffers) {A : Type 0}
    (verify : fb.Table → fb.Verifier → Option fb.Verifier) (value : fb.Table → A) (x : A)
    (buf : List ℕ) : Type 0 where
  pub verified : fb.verify_buffer verify (fb.verifier buf) ≡ true
  pub valued : value (fb.get_root buf) ≡ x

-- what a pointer to a string or to a vector points to
abbrev pub text_of : (fb : FlatBuffers) → Option fb.Str → Option (List ℕ)
text_of fb none = none
text_of fb (some p) = some (fb.str p)

abbrev pub bytes_of : (fb : FlatBuffers) → Option fb.Vec → Option (List ℕ)
bytes_of fb none = none
bytes_of fb (some p) = some (fb.bytes p)

-- The buffer of a builder, with a table just made as its root.
abbrev pub buffer_of : (fb : FlatBuffers) → ℕ × fb.Builder → List ℕ
buffer_of fb (o, b) = fb.get_buffer (fb.finish o b)
