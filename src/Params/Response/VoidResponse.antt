-- ===== src/Params/Response/VoidResponse.antt =====
-- The table VoidResponse of include/response_param_generated.h.
use zmq_ipc.Prelude.{◌>>=◌, ℕ, Option}
use zmq_ipc.FlatBuffers.{FlatBuffers}

module _ (fb : FlatBuffers) where
  unfoldable pub verify : fb.Table → fb.Verifier → Option fb.Verifier
  verify t k = do k1 ← fb.verify_table_start t k; fb.verify_end_table k1

  -- the constructor of the builder, which keeps the start of the table
  unfoldable pub start_table : fb.Builder → ℕ × fb.Builder
  start_table b = fb.start_table b

  unfoldable pub finish_table : ℕ → fb.Builder → ℕ × fb.Builder
  finish_table start b = fb.end_table start b

  unfoldable pub create : fb.Builder → ℕ × fb.Builder
  unfolding start_table finish_table
  create b = let (start, b1) = start_table b in finish_table start b1
