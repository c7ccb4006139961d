-- ===== src/Rpc.antt =====
-- include/rpc_generated.h: the accessors, the verifier and the builder of the table RpcMessage.
pub mod Contents
pub mod Direct
pub mod Creating
pub mod Fields
pub mod RoundTrip
use zmq_ipc.Prelude.{◌>>=◌, ℕ, Bool, Option, none, some, List, [], ◌∷◌, ltb, if◌then◌else◌}
use zmq_ipc.FlatBuffers.{FlatBuffers}

-- enum RpcMessageType : int8_t, by the bit patterns of its values
abbrev pub request : ℕ
request = 0

abbrev pub response : ℕ
response = 1

-- EnumValuesRpcMessageType
unfoldable pub enum_values : List ℕ
enum_values = request ∷ response ∷ []

-- EnumNameRpcMessageType, as the bytes of the name
unfoldable pub enum_name : ℕ → List ℕ
enum_name e =
    if ltb response e
    then []
    else if ltb request e
    then b'R' ∷ b'E' ∷ b'S' ∷ b'P' ∷ b'O' ∷ b'N' ∷ b'S' ∷ b'E' ∷ []
    else b'R' ∷ b'E' ∷ b'Q' ∷ b'U' ∷ b'E' ∷ b'S' ∷ b'T' ∷ []

abbrev pub vt_type : ℕ
vt_type = 4

abbrev pub vt_id : ℕ
vt_id = 6

abbrev pub vt_method : ℕ
vt_method = 8

abbrev pub vt_payload : ℕ
vt_payload = 10

module _ (fb : FlatBuffers) where
  -- RpcMessage::type, id, method, payload
  unfoldable pub type : fb.Table → ℕ
  type t = fb.get_field 1 t vt_type 0

  unfoldable pub id : fb.Table → ℕ
  id t = fb.get_field 4 t vt_id 0

  unfoldable pub method : fb.Table → Option fb.Str
  method t = fb.get_string t vt_method

  unfoldable pub payload : fb.Table → Option fb.Vec
  payload t = fb.get_vector t vt_payload

  -- RpcMessage::Verify; a check that fails ends the chain of `&&`
  unfoldable pub verify : fb.Table → fb.Verifier → Option fb.Verifier
  unfolding method payload
  verify t k = do
    k1 ← fb.verify_table_start t k
    k2 ← fb.verify_field 1 t vt_type k1
    k3 ← fb.verify_field 4 t vt_id k2
    k4 ← fb.verify_offset t vt_method k3
    k5 ← fb.verify_string (method t) k4
    k6 ← fb.verify_offset t vt_payload k5
    k7 ← fb.verify_vector (payload t) k6
    fb.verify_end_table k7

  -- RpcMessageBuilder
  unfoldable pub add_type : ℕ → fb.Builder → fb.Builder
  add_type ty b = fb.add_element 1 vt_type ty 0 b

  unfoldable pub add_id : ℕ → fb.Builder → fb.Builder
  add_id i b = fb.add_element 4 vt_id i 0 b

  unfoldable pub add_method : ℕ → fb.Builder → fb.Builder
  add_method o b = fb.add_offset vt_method o b

  unfoldable pub add_payload : ℕ → fb.Builder → fb.Builder
  add_payload o b = fb.add_offset vt_payload o b

  -- the constructor RpcMessageBuilder(fbb), which keeps the start of the table
  unfoldable pub start_message : fb.Builder → ℕ × fb.Builder
  start_message b = fb.start_table b

  -- RpcMessageBuilder::Finish
  unfoldable pub finish_message : ℕ → fb.Builder → ℕ × fb.Builder
  finish_message start b = fb.end_table start b

  -- CreateRpcMessage(fbb, type, id, method, payload)
  unfoldable pub create_rpc_message : ℕ → ℕ → ℕ → ℕ → fb.Builder → ℕ × fb.Builder
  unfolding start_message add_payload add_method add_id add_type finish_message
  create_rpc_message ty i m p b =
      let (start, b1) = start_message b in
      finish_message start (add_type ty (add_id i (add_method m (add_payload p b1))))

  abbrev pub or_null :
      (List ℕ → fb.Builder → ℕ × fb.Builder) → Option (List ℕ) → fb.Builder → ℕ × fb.Builder
  or_null create none b = (0, b)
  or_null create (some s) b = create s b

  -- CreateRpcMessageDirect(fbb, type, id, method, payload), where a null argument leaves the field out
  unfoldable pub create_rpc_message_direct :
      ℕ → ℕ → Option (List ℕ) → Option (List ℕ) → fb.Builder → ℕ × fb.Builder
  unfolding create_rpc_message
  create_rpc_message_direct ty i m p b =
      let (mo, b1) = or_null fb.create_string m b in
      let (po, b2) = or_null fb.create_vector p b1 in create_rpc_message ty i mo po b2
