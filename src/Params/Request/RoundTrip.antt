-- ===== src/Params/Request/RoundTrip.antt =====
-- What the tables of include/request_param_generated.h are built from is what their readers return.
use zmq_ipc.Prelude.{ℕ, ◌^◌, ◌<◌, ◌≡◌, true, Bool, Option, none, List, if◌then◌else◌, length}
use zmq_ipc.FlatBuffers.{FlatBuffers, FlatBuffersLaws, is_zero, max_size}
use zmq_ipc.Params.Reads.{Reads, buffer_of, text_of, bytes_of}
use zmq_ipc.Params.Kinds.{void, bool, int32, int64, float32, float64, text, bytes}
use zmq_ipc.Params.Tables.{request_table-Reads}
use zmq_ipc.Params.Request.VoidRequest
use zmq_ipc.Params.Request.BoolRequest
use zmq_ipc.Params.Request.IntRequest
use zmq_ipc.Params.Request.Int64Request
use zmq_ipc.Params.Request.FloatRequest
use zmq_ipc.Params.Request.DoubleRequest
use zmq_ipc.Params.Request.StringRequest
use zmq_ipc.Params.Request.BytesRequest

module _ {fb : FlatBuffers} (laws : FlatBuffersLaws fb) (b : fb.Builder)
    (idle : laws.pending b ≡ none) where
  -- The tables of a string and of bytes, built from a pointer that may be null: a buffer of less than 2 ^ 31 - 1
  -- bytes, built by a builder that has no table open, passes the verifier, and the accessor
  -- returns a pointer to the same bytes, and a null pointer for a null pointer.
  request_pointers-Reads :
      (s v : Option (List ℕ))
      → length (buffer_of fb (StringRequest.create_direct fb s b)) < max_size
      → length (buffer_of fb (BytesRequest.create_direct fb v b)) < max_size
      → Reads fb
          (StringRequest.verify fb)
          (λ t. text_of fb (StringRequest.value fb t))
          s
          (buffer_of fb (StringRequest.create_direct fb s b))
        × Reads fb
            (BytesRequest.verify fb)
            (λ t. bytes_of fb (BytesRequest.value fb t))
            v
            (buffer_of fb (BytesRequest.create_direct fb v b))
  request_pointers-Reads s v hs hv =
      (request_table-Reads laws b idle text s tt hs, request_table-Reads laws b idle bytes v tt hv)

  -- The table without fields and those of a Boolean, an int32, an int64, a float and a double: a buffer of less than
  -- 2 ^ 31 - 1 bytes with such a table, built by a builder that has no other table open, passes the
  -- verifier of the table, and the accessor, if there is one, returns the value it was built from,
  -- but that -0.0 reads as 0.0.
  request_scalars-Reads :
      (c : Bool) (m n x y : ℕ)
      → m < 2 ^ 32
      → n < 2 ^ 64
      → x < 2 ^ 32
      → y < 2 ^ 64
      → length (buffer_of fb (VoidRequest.create fb b)) < max_size
      → length (buffer_of fb (BoolRequest.create fb c b)) < max_size
      → length (buffer_of fb (IntRequest.create fb m b)) < max_size
      → length (buffer_of fb (Int64Request.create fb n b)) < max_size
      → length (buffer_of fb (FloatRequest.create fb x b)) < max_size
      → length (buffer_of fb (DoubleRequest.create fb y b)) < max_size
      → (((fb.verify_buffer
                (VoidRequest.verify fb)
                (fb.verifier (buffer_of fb (VoidRequest.create fb b)))
              ≡ true)
            × Reads fb
                (BoolRequest.verify fb)
                (BoolRequest.value fb)
                c
                (buffer_of fb (BoolRequest.create fb c b))
            × Reads fb
                (IntRequest.verify fb)
                (IntRequest.value fb)
                m
                (buffer_of fb (IntRequest.create fb m b))
            × Reads fb
                (Int64Request.verify fb)
                (Int64Request.value fb)
                n
                (buffer_of fb (Int64Request.create fb n b)))
          × (Reads fb
                (FloatRequest.verify fb)
                (FloatRequest.value fb)
                (if is_zero 4 x then 0 else x)
                (buffer_of fb (FloatRequest.create fb x b))
              × Reads fb
                  (DoubleRequest.verify fb)
                  (DoubleRequest.value fb)
                  (if is_zero 8 y then 0 else y)
                  (buffer_of fb (DoubleRequest.create fb y b))))
  request_scalars-Reads c m n x y hm hn hx hy sv sc sm sn sx sy =
      let table = request_table-Reads laws b idle in
      (
        (
          (table void tt tt sv).verified,
          table bool c tt sc,
          table int32 m hm sm,
          table int64 n hn sn,
        ),
        (table float32 x hx sx, table float64 y hy sy),
      )
