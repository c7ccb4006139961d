-- ===== src/ResultBytes.antt =====
-- include/rpc_response_utils.hpp: the specialisations of to_result_bytes.
use zmq_ipc.Prelude.{ℕ, ◌≡◌, refl, ap, false, List, [], ◌∷◌, ◌++◌, nat_beq, if◌then◌else◌}
use zmq_ipc.Prelude.{All}
use zmq_ipc.FlatBuffers.{FlatBuffers}

-- the bytes in memory that `strlen` counts
unfoldable pub until_nul : List ℕ → List ℕ
until_nul [] = []
until_nul (x ∷ xs) = let rest = until_nul xs in if nat_beq x 0 then [] else x ∷ rest

module _ (fb : FlatBuffers) where
  -- to_result_bytes<std::string>
  unfoldable pub string_result_bytes : List ℕ → fb.Builder → ℕ × fb.Builder
  string_result_bytes value b = fb.create_vector value b

  -- to_result_bytes<const char *>, given the memory from the pointer on
  unfoldable pub c_string_result_bytes : List ℕ → fb.Builder → ℕ × fb.Builder
  unfolding until_nul
  c_string_result_bytes memory b = fb.create_vector (until_nul memory) b

  -- to_result_bytes<std::vector<uint8_t>>
  unfoldable pub vector_result_bytes : List ℕ → fb.Builder → ℕ × fb.Builder
  vector_result_bytes value b = fb.create_vector value b

  -- to_result_bytes<T> for a trivially copyable T, given the bytes of the object
  unfoldable pub object_result_bytes : List ℕ → fb.Builder → ℕ × fb.Builder
  object_result_bytes object b = fb.create_vector object b

until_nul-append :
    (s rest : List ℕ) → All (λ x. nat_beq x 0 ≡ false) s → until_nul (s ++ 0 ∷ rest) ≡ s
unfolding until_nul
until_nul-append [] rest h = refl
until_nul-append (x ∷ s) rest (h, hs) = rw h (ap (λ l. x ∷ l) (until_nul-append s rest hs))

-- A C string, whatever follows its NUL in memory, and a std::string of the same bytes, none of them NUL,
-- give the same vector.
pub c_string-string_result_bytes :
    (fb : FlatBuffers) (s rest : List ℕ) (b : fb.Builder)
    → All (λ x. nat_beq x 0 ≡ false) s
    → c_string_result_bytes fb (s ++ 0 ∷ rest) b ≡ string_result_bytes fb s b
unfolding c_string_result_bytes string_result_bytes
c_string-string_result_bytes fb s rest b h =
    ap (λ l. fb.create_vector l b) (until_nul-append s rest h)
