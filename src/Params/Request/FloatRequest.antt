-- ===== src/Params/Request/FloatRequest.antt =====
-- The table FloatRequest of include/request_param_generated.h.
use zmq_ipc.Prelude.{◌>>=◌, ℕ, Option}
use zmq_ipc.FlatBuffers.{FlatBuffers}

abbrev pub vt_value : ℕ
vt_value = 4

module _ (fb : FlatBuffers) where
  unfoldable pub value : fb.Table → ℕ
  value t = fb.get_field 4 t vt_value 0

  unfoldable pub verify : fb.Table → fb.Verifier → Option fb.Verifier
  verify t k = do
    k1 ← fb.verify_table_start t k
    k2 ← fb.verify_field 4 t vt_value k1
    fb.verify_end_table k2

  unfoldable pub add_value : ℕ → fb.Builder → fb.Builder
  add_value x b = fb.add_float 4 vt_value x b

  -- the constructor of the builder, which keeps the start of the table
  unfoldable pub start_table : fb.Builder → ℕ × fb.Builder
  start_table b = fb.start_table b

  unfoldable pub finish_table : ℕ → fb.Builder → ℕ × fb.Builder
  finish_table start b = fb.end_table start b

  unfoldable pub create : ℕ → fb.Builder → ℕ × fb.Builder
  unfolding start_table add_value finish_table
  create x b = let (start, b1) = start_table b in finish_table start (add_value x b1)
