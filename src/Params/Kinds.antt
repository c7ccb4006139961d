-- ===== src/Params/Kinds.antt =====
-- The tables of both files as families over the kind of their one field, or of none.
use zmq_ipc.Prelude.{ℕ, ◌^◌, ◌<◌, Bool, Option, List, if◌then◌else◌}
use zmq_ipc.FlatBuffers.{FlatBuffers, is_zero}
use zmq_ipc.Params.Reads.{text_of, bytes_of, buffer_of}
use zmq_ipc.Params.Request.VoidRequest
use zmq_ipc.Params.Request.BoolRequest
use zmq_ipc.Params.Request.IntRequest
use zmq_ipc.Params.Request.Int64Request
use zmq_ipc.Params.Request.FloatRequest
use zmq_ipc.Params.Request.DoubleRequest
use zmq_ipc.Params.Request.StringRequest
use zmq_ipc.Params.Request.BytesRequest
use zmq_ipc.Params.Response.VoidResponse
use zmq_ipc.Params.Response.BoolResponse
use zmq_ipc.Params.Response.IntResponse
use zmq_ipc.Params.Response.Int64Response
use zmq_ipc.Params.Response.FloatResponse
use zmq_ipc.Params.Response.DoubleResponse
use zmq_ipc.Params.Response.StringResponse
use zmq_ipc.Params.Response.BytesResponse

pub data Kind : Type 0 where
  void bool int32 int64 float32 float64 text bytes : Kind

-- What a table of the kind is built from: numbers are bit patterns, and pointers may be null.
abbrev pub Value : Kind → Type 0
Value void = Unit
Value bool = Bool
Value int32 = ℕ
Value int64 = ℕ
Value float32 = ℕ
Value float64 = ℕ
Value text = Option (List ℕ)
Value bytes = Option (List ℕ)

-- The value fits the type of the field.
abbrev pub Fits : (k : Kind) → Value k → Type 0
Fits void x = Unit
Fits bool x = Unit
Fits int32 x = x < 2 ^ 32
Fits int64 x = x < 2 ^ 64
Fits float32 x = x < 2 ^ 32
Fits float64 x = x < 2 ^ 64
Fits text x = Unit
Fits bytes x = Unit

-- What a reader sees of the value: a field that equals its default is left out, so -0.0 reads as 0.0.
abbrev pub seen : (k : Kind) → Value k → Value k
seen void x = x
seen bool x = x
seen int32 x = x
seen int64 x = x
seen float32 x = if is_zero 4 x then 0 else x
seen float64 x = if is_zero 8 x then 0 else x
seen text x = x
seen bytes x = x

-- The functions of a generated table with the values of `A`: create, Verify, and the accessor with what it points to.
pub record TableOf (fb : FlatBuffers) (A : Type 0) : Type 0 where
  pub create : A → FlatBuffers.Builder fb → ℕ × FlatBuffers.Builder fb
  pub verify : FlatBuffers.Table fb → FlatBuffers.Verifier fb → Option (FlatBuffers.Verifier fb)
  pub value : FlatBuffers.Table fb → A

module _ (fb : FlatBuffers) where
  -- include/request_param_generated.h
  abbrev pub request_table : (k : Kind) → TableOf fb (Value k)
  request_table void = record {
    create = λ x b. VoidRequest.create fb b;
    verify = VoidRequest.verify fb;
    value = λ t. tt;
  }
  request_table bool = record {
    create = BoolRequest.create fb;
    verify = BoolRequest.verify fb;
    value = BoolRequest.value fb;
  }
  request_table int32 = record {
    create = IntRequest.create fb;
    verify = IntRequest.verify fb;
    value = IntRequest.value fb;
  }
  request_table int64 = record {
    create = Int64Request.create fb;
    verify = Int64Request.verify fb;
    value = Int64Request.value fb;
  }
  request_table float32 = record {
    create = FloatRequest.create fb;
    verify = FloatRequest.verify fb;
    value = FloatRequest.value fb;
  }
  request_table float64 = record {
    create = DoubleRequest.create fb;
    verify = DoubleRequest.verify fb;
    value = DoubleRequest.value fb;
  }
  request_table text = record {
    create = StringRequest.create_direct fb;
    verify = StringRequest.verify fb;
    value = λ t. text_of fb (StringRequest.value fb t);
  }
  request_table bytes = record {
    create = BytesRequest.create_direct fb;
    verify = BytesRequest.verify fb;
    value = λ t. bytes_of fb (BytesRequest.value fb t);
  }

  -- include/response_param_generated.h
  abbrev pub response_table : (k : Kind) → TableOf fb (Value k)
  response_table void = record {
    create = λ x b. VoidResponse.create fb b;
    verify = VoidResponse.verify fb;
    value = λ t. tt;
  }
  response_table bool = record {
    create = BoolResponse.create fb;
    verify = BoolResponse.verify fb;
    value = BoolResponse.value fb;
  }
  response_table int32 = record {
    create = IntResponse.create fb;
    verify = IntResponse.verify fb;
    value = IntResponse.value fb;
  }
  response_table int64 = record {
    create = Int64Response.create fb;
    verify = Int64Response.verify fb;
    value = Int64Response.value fb;
  }
  response_table float32 = record {
    create = FloatResponse.create fb;
    verify = FloatResponse.verify fb;
    value = FloatResponse.value fb;
  }
  response_table float64 = record {
    create = DoubleResponse.create fb;
    verify = DoubleResponse.verify fb;
    value = DoubleResponse.value fb;
  }
  response_table text = record {
    create = StringResponse.create_direct fb;
    verify = StringResponse.verify fb;
    value = λ t. text_of fb (StringResponse.value fb t);
  }
  response_table bytes = record {
    create = BytesResponse.create_direct fb;
    verify = BytesResponse.verify fb;
    value = λ t. bytes_of fb (BytesResponse.value fb t);
  }

  -- The buffer with the table of the kind and the value as its root.
  abbrev pub request_of : (k : Kind) → Value k → List ℕ
  request_of k x = buffer_of fb ((request_table k).create x (fb.new_builder))

  abbrev pub response_of : (k : Kind) → Value k → List ℕ
  response_of k x = buffer_of fb ((response_table k).create x (fb.new_builder))
