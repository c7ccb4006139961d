-- ===== src/Params/Request/StringRequest.antt =====
-- The table StringRequest of include/request_param_generated.h.
use zmq_ipc.Prelude.{◌>>=◌, ℕ, Option, List}
use zmq_ipc.FlatBuffers.{FlatBuffers}
use zmq_ipc.Rpc.{or_null}

abbrev pub vt_value : ℕ
vt_value = 4

module _ (fb : FlatBuffers) where
  unfoldable pub value : fb.Table → Option fb.Str
  value t = fb.get_string t vt_value

  unfoldable pub verify : fb.Table → fb.Verifier → Option fb.Verifier
  unfolding value
  verify t k = do
    k1 ← fb.verify_table_start t k
    k2 ← fb.verify_offset t vt_value k1
    k3 ← fb.verify_string (value t) k2
    fb.verify_end_table k3

  unfoldable pub add_value : ℕ → fb.Builder → fb.Builder
  add_value o b = fb.add_offset vt_value o b

  -- the constructor of the builder, which keeps the start of the table
  unfoldable pub start_table : fb.Builder → ℕ × fb.Builder
  start_table b = fb.start_table b

  unfoldable pub finish_table : ℕ → fb.Builder → ℕ × fb.Builder
  finish_table start b = fb.end_table start b

  unfoldable pub create : ℕ → fb.Builder → ℕ × fb.Builder
  unfolding start_table add_value finish_table
  create x b = let (start, b1) = start_table b in finish_table start (add_value x b1)

  -- a null pointer leaves the field out
  unfoldable pub create_direct : Option (List ℕ) → fb.Builder → ℕ × fb.Builder
  unfolding create
  create_direct s b = let (o, b1) = or_null fb fb.create_string s b in create o b1
