-- ===== src/Examples/Tables.antt =====
-- The generated tables at concrete values.
use zmq_ipc.Prelude.{◌<◌, some, [], ◌∷◌, arith, length}
use zmq_ipc.Prelude.Dict.{find}
use zmq_ipc.FlatBuffers.{max_size}
use zmq_ipc.FlatBuffers.Sample.{sample, sample-laws, encode, store, add, added, fields_of}
use zmq_ipc.Params.Reads.{Reads}
use zmq_ipc.Params.Kinds.{float32, text, request_table, response_table, request_of, response_of}
use zmq_ipc.Params.Tables.{request_table-Reads, response_table-Reads}
use zmq_ipc.Params.Request.FloatRequest
use zmq_ipc.Params.Response.StringResponse

small_float : length (request_of sample float32 2147483648) < max_size
unfolding FloatRequest.create FloatRequest.start_table FloatRequest.add_value
    FloatRequest.finish_table encode store add added fields_of find
small_float = omega arith

-- -0.0 reads as 0.0
request_table-Reads_example :
    Reads sample
      (request_table sample float32).verify
      (request_table sample float32).value
      0
      (request_of sample float32 2147483648)
request_table-Reads_example =
    request_table-Reads sample-laws sample.new_builder sample-laws.new_builder_pending float32
      2147483648 (omega arith) small_float

small_string : length (response_of sample text (some (b'h' ∷ b'i' ∷ []))) < max_size
unfolding StringResponse.create StringResponse.create_direct StringResponse.start_table
    StringResponse.add_value StringResponse.finish_table encode store add added fields_of find
small_string = omega arith

response_table-Reads_example :
    Reads sample
      (response_table sample text).verify
      (response_table sample text).value
      (some (b'h' ∷ b'i' ∷ []))
      (response_of sample text (some (b'h' ∷ b'i' ∷ [])))
response_table-Reads_example =
    response_table-Reads sample-laws sample.new_builder sample-laws.new_builder_pending text
      (some (b'h' ∷ b'i' ∷ [])) tt small_string
