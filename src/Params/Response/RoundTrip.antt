-- ===== src/Params/Response/RoundTrip.antt =====
-- What the tables of include/response_param_generated.h are built from is what their readers return.
use zmq_ipc.Prelude.{ℕ, ◌^◌, ◌<◌, ◌≡◌, true, Bool, Option, none, List, if◌then◌else◌, length}
use zmq_ipc.FlatBuffers.{FlatBuffers, FlatBuffersLaws, is_zero, max_size}
use zmq_ipc.Params.Reads.{Reads, buffer_of, text_of, bytes_of}
use zmq_ipc.Params.Kinds.{void, bool, int32, int64, float32, float64, text, bytes}
use zmq_ipc.Params.Tables.{response_table-Reads}
use zmq_ipc.Params.Response.VoidResponse
use zmq_ipc.Params.Response.BoolResponse
use zmq_ipc.Params.Response.IntResponse
use zmq_ipc.Params.Response.Int64Response
use zmq_ipc.Params.Response.FloatResponse
use zmq_ipc.Params.Response.DoubleResponse
use zmq_ipc.Params.Response.StringResponse
use zmq_ipc.Params.Response.BytesResponse

module _ {fb : FlatBuffers} (laws : FlatBuffersLaws fb) (b : fb.Builder)
    (idle : laws.pending b ≡ none) where
  -- The tables of a string and of bytes, built from a pointer that may be null: a buffer of less than 2 ^ 31 - 1
  -- bytes, built by a builder that has no table open, passes the verifier, and the accessor
  -- returns a pointer to the same bytes, and a null pointer for a null pointer.
  response_pointers-Reads :
      (s v : Option (List ℕ))
      → length (buffer_of fb (StringResponse.create_direct fb s b)) < max_size
      → length (buffer_of fb (BytesResponse.create_direct fb v b)) < max_size
      → Reads fb
          (StringResponse.verify fb)
          (λ t. text_of fb (StringResponse.value fb t))
          s
          (buffer_of fb (StringResponse.create_direct fb s b))
        × Reads fb
            (BytesResponse.verify fb)
            (λ t. bytes_of fb (BytesResponse.value fb t))
            v
            (buffer_of fb (BytesResponse.create_direct fb v b))
  response_pointers-Reads s v hs hv = (
    response_table-Reads laws b idle text s tt hs,
    response_table-Reads laws b idle bytes v tt hv,
  )

  -- The table without fields and those of a Boolean, an int32, an int64, a float and a double: a buffer of less than
  -- 2 ^ 31 - 1 bytes with such a table, built by a builder that has no other table open, passes the
  -- verifier of the table, and the accessor, if there is one, returns the value it was built from,
  -- but that -0.0 reads as 0.0.
  response_scalars-Reads :
      (c : Bool) (m n x y : ℕ)
      → m < 2 ^ 32
      → n < 2 ^ 64
      → x < 2 ^ 32
      → y < 2 ^ 64
      → length (buffer_of fb (VoidResponse.create fb b)) < max_size
      → length (buffer_of fb (BoolResponse.create fb c b)) < max_size
      → length (buffer_of fb (IntResponse.create fb m b)) < max_size
      → length (buffer_of fb (Int64Response.create fb n b)) < max_size
      → length (buffer_of fb (FloatResponse.create fb x b)) < max_size
      → length (buffer_of fb (DoubleResponse.create fb y b)) < max_size
      → (((fb.verify_buffer
                (VoidResponse.verify fb)
                (fb.verifier (buffer_of fb (VoidResponse.create fb b)))
              ≡ true)
            × Reads fb
                (BoolResponse.verify fb)
                (BoolResponse.value fb)
                c
                (buffer_of fb (BoolResponse.create fb c b))
            × Reads fb
                (IntResponse.verify fb)
                (IntResponse.value fb)
                m
                (buffer_of fb (IntResponse.create fb m b))
            × Reads fb
                (Int64Response.verify fb)
                (Int64Response.value fb)
                n
                (buffer_of fb (Int64Response.create fb n b)))
          × (Reads fb
                (FloatResponse.verify fb)
                (FloatResponse.value fb)
                (if is_zero 4 x then 0 else x)
                (buffer_of fb (FloatResponse.create fb x b))
              × Reads fb
                  (DoubleResponse.verify fb)
                  (DoubleResponse.value fb)
                  (if is_zero 8 y then 0 else y)
                  (buffer_of fb (DoubleResponse.create fb y b))))
  response_scalars-Reads c m n x y hm hn hx hy sv sc sm sn sx sy =
      let table = response_table-Reads laws b idle in
      (
        (
          (table void tt tt sv).verified,
          table bool c tt sc,
          table int32 m hm sm,
          table int64 n hn sn,
        ),
        (table float32 x hx sx, table float64 y hy sy),
      )
