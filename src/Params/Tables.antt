-- ===== src/Params/Tables.antt =====
-- What a table of either file is built from is what its readers return.
use zmq_ipc.Prelude.{◌<◌, ◌≡◌, refl, none, length}
use zmq_ipc.FlatBuffers.{FlatBuffers, FlatBuffersLaws, max_size}
use zmq_ipc.Params.Kinds.{
  Kind, void, bool, int32, int64, float32, float64, text, bytes, Value, Fits, seen, request_table,
  response_table,
}
use zmq_ipc.Params.Reads.{Reads, buffer_of}
use zmq_ipc.Params.Scalars.{empty_verified, number-Reads, bool-Reads, float-Reads}
use zmq_ipc.Params.Pointers.{string-Reads, vector-Reads}
use zmq_ipc.Params.Request.VoidRequest
use zmq_ipc.Params.Request.BoolRequest
use zmq_ipc.Params.Request.IntRequest
use zmq_ipc.Params.Request.Int64Request
use zmq_ipc.Params.Request.FloatRequest
use zmq_ipc.Params.Request.DoubleRequest
use zmq_ipc.Params.Request.StringRequest
use zmq_ipc.Params.Request.BytesRequest
use zmq_ipc.Params.Response.VoidResponse
use zmq_ipc.Params.Response.BoolResponse
use zmq_ipc.Params.Response.IntResponse
use zmq_ipc.Params.Response.Int64Response
use zmq_ipc.Params.Response.FloatResponse
use zmq_ipc.Params.Response.DoubleResponse
use zmq_ipc.Params.Response.StringResponse
use zmq_ipc.Params.Response.BytesResponse

module _ {fb : FlatBuffers} (laws : FlatBuffersLaws fb) (b : fb.Builder)
    (idle : laws.pending b ≡ none) where
  -- For every kind: a buffer of less than 2 ^ 31 - 1 bytes with such a table as its root, built by a builder that
  -- has no table open from a value that fits the field, or from a pointer that may be null, passes the verifier of
  -- the table, and the accessor, if there is one, returns that value, or a pointer to the same bytes, but that
  -- -0.0 reads as 0.0.
  pub request_table-Reads :
      (k : Kind) (x : Value k)
      → Fits k x
      → length (buffer_of fb ((request_table fb k).create x b)) < max_size
      → Reads fb
          (request_table fb k).verify
          (request_table fb k).value
          (seen k x)
          (buffer_of fb ((request_table fb k).create x b))
  unfolding VoidRequest.create VoidRequest.start_table VoidRequest.finish_table VoidRequest.verify
      BoolRequest.create BoolRequest.start_table BoolRequest.add_value BoolRequest.finish_table
      BoolRequest.verify BoolRequest.value IntRequest.create IntRequest.start_table
      IntRequest.add_value IntRequest.finish_table IntRequest.verify IntRequest.value
      Int64Request.create Int64Request.start_table Int64Request.add_value Int64Request.finish_table
      Int64Request.verify Int64Request.value FloatRequest.create FloatRequest.start_table
      FloatRequest.add_value FloatRequest.finish_table FloatRequest.verify FloatRequest.value
      DoubleRequest.create DoubleRequest.start_table DoubleRequest.add_value
      DoubleRequest.finish_table DoubleRequest.verify DoubleRequest.value
      StringRequest.create_direct StringRequest.create StringRequest.start_table
      StringRequest.add_value StringRequest.finish_table StringRequest.verify StringRequest.value
      BytesRequest.create_direct BytesRequest.create BytesRequest.start_table BytesRequest.add_value
      BytesRequest.finish_table BytesRequest.verify BytesRequest.value
  request_table-Reads void x h small = record {
    verified = empty_verified laws b idle small;
    valued = refl;
  }
  request_table-Reads bool x h small = bool-Reads laws b idle x small
  request_table-Reads int32 x h small = number-Reads laws b idle 4 x h small
  request_table-Reads int64 x h small = number-Reads laws b idle 8 x h small
  request_table-Reads float32 x h small = float-Reads laws b idle 4 x h small
  request_table-Reads float64 x h small = float-Reads laws b idle 8 x h small
  request_table-Reads text x h small = string-Reads laws b idle x small
  request_table-Reads bytes x h small = vector-Reads laws b idle x small

  -- For every kind: a buffer of less than 2 ^ 31 - 1 bytes with such a table as its root, built by a builder that
  -- has no table open from a value that fits the field, or from a pointer that may be null, passes the verifier of
  -- the table, and the accessor, if there is one, returns that value, or a pointer to the same bytes, but that
  -- -0.0 reads as 0.0.
  pub response_table-Reads :
      (k : Kind) (x : Value k)
      → Fits k x
      → length (buffer_of fb ((response_table fb k).create x b)) < max_size
      → Reads fb
          (response_table fb k).verify
          (response_table fb k).value
          (seen k x)
          (buffer_of fb ((response_table fb k).create x b))
  unfolding VoidResponse.create VoidResponse.start_table VoidResponse.finish_table
      VoidResponse.verify BoolResponse.create BoolResponse.start_table BoolResponse.add_value
      BoolResponse.finish_table BoolResponse.verify BoolResponse.value IntResponse.create
      IntResponse.start_table IntResponse.add_value IntResponse.finish_table IntResponse.verify
      IntResponse.value Int64Response.create Int64Response.start_table Int64Response.add_value
      Int64Response.finish_table Int64Response.verify Int64Response.value FloatResponse.create
      FloatResponse.start_table FloatResponse.add_value FloatResponse.finish_table
      FloatResponse.verify FloatResponse.value DoubleResponse.create DoubleResponse.start_table
      DoubleResponse.add_value DoubleResponse.finish_table DoubleResponse.verify
      DoubleResponse.value StringResponse.create_direct StringResponse.create
      StringResponse.start_table StringResponse.add_value StringResponse.finish_table
      StringResponse.verify StringResponse.value BytesResponse.create_direct BytesResponse.create
      BytesResponse.start_table BytesResponse.add_value BytesResponse.finish_table
      BytesResponse.verify BytesResponse.value
  response_table-Reads void x h small = record {
    verified = empty_verified laws b idle small;
    valued = refl;
  }
  response_table-Reads bool x h small = bool-Reads laws b idle x small
  response_table-Reads int32 x h small = number-Reads laws b idle 4 x h small
  response_table-Reads int64 x h small = number-Reads laws b idle 8 x h small
  response_table-Reads float32 x h small = float-Reads laws b idle 4 x h small
  response_table-Reads float64 x h small = float-Reads laws b idle 8 x h small
  response_table-Reads text x h small = string-Reads laws b idle x small
  response_table-Reads bytes x h small = vector-Reads laws b idle x small
