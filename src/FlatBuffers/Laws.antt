-- ===== src/FlatBuffers/Laws.antt =====
-- The documented behaviour of the FlatBuffers runtime.
use zmq_ipc.Prelude.{
  ℕ, suc, ◌^◌, ◌<◌, ◌≡◌, ◌≢◌, true, Option, none, some, List, [], ◌∷◌, ◌==◌, nat_eq, if◌then◌else◌,
  length,
}
use zmq_ipc.Prelude.Dict.{Dict, find}
use zmq_ipc.FlatBuffers.Defs.{
  FlatBuffers, is_zero, Slot, scalar, ref, Obj, text, blob, table, Content, number, string, vector,
  resolve, max_size, max_depth,
}

module _ {B : Type 0} (object : B → ℕ → Option Obj) (pending : B → Option (ℕ × Dict ℕ Slot)) where
  -- `b'` is `b` with one more object, at a fresh offset `o`, and no table open.
  pub record Stores (b b' : B) (o : ℕ) (x : Obj) : Type 0 where
    pub positive : 0 < o
    pub fresh : object b o ≡ none
    pub stored : (p : ℕ) → object b' p ≡ (if o == p then some x else object b p)
    pub closed : pending b' ≡ none

module _ {K : Type 0} (checks : K → List ℕ) (tables : K → ℕ) where
  -- A check that passes: it goes on over the same bytes, `n` tables entered.
  pub record Passes (k : K) (r : Option K) (n : ℕ) : Type 0 where
    pub next : K
    pub passed : r ≡ some next
    pub same : checks next ≡ checks k
    pub entered : tables next ≡ n

pub record FlatBuffersLaws (fb : FlatBuffers) : Type 1 where
  -- the objects of a builder, and the table under construction with its start
  pub object : FlatBuffers.Builder fb → ℕ → Option Obj
  pub pending : FlatBuffers.Builder fb → Option (ℕ × Dict ℕ Slot)
  -- the fields of the root table of a buffer that is well formed
  pub contents : List ℕ → Option (Dict ℕ Content)
  -- what a verifier checks, and how many tables it has entered
  pub checks : FlatBuffers.Verifier fb → List ℕ
  pub tables : FlatBuffers.Verifier fb → ℕ
  pub new_builder_pending : pending (fb.new_builder) ≡ none
  pub create_string_stores :
      (s : List ℕ) (b : fb.Builder)
      → pending b ≡ none
      → Stores object pending b (fb.create_string s b).1 (fb.create_string s b).0 (text s)
  pub create_vector_stores :
      (s : List ℕ) (b : fb.Builder)
      → pending b ≡ none
      → Stores object pending b (fb.create_vector s b).1 (fb.create_vector s b).0 (blob s)
  pub start_table_object : (b : fb.Builder) (p : ℕ) → object (fb.start_table b).1 p ≡ object b p
  pub start_table_pending :
      (b : fb.Builder)
      → pending b ≡ none
      → pending (fb.start_table b).1 ≡ some ((fb.start_table b).0, [])
  pub add_element_object :
      (w v x d : ℕ) (b : fb.Builder) (p : ℕ) → object (fb.add_element w v x d b) p ≡ object b p
  pub add_element_pending :
      (w v x d : ℕ) (b : fb.Builder) (s : ℕ) (fs : Dict ℕ Slot)
      → x < 256 ^ w
      → pending b ≡ some (s, fs)
      → pending (fb.add_element w v x d b) ≡ some (s, (if x == d then fs else (v, scalar w x) ∷ fs))
  pub add_float_object :
      (w v x : ℕ) (b : fb.Builder) (p : ℕ) → object (fb.add_float w v x b) p ≡ object b p
  pub add_float_pending :
      (w v x : ℕ) (b : fb.Builder) (s : ℕ) (fs : Dict ℕ Slot)
      → x < 256 ^ w
      → pending b ≡ some (s, fs)
      → pending (fb.add_float w v x b)
        ≡ some (s, (if is_zero w x then fs else (v, scalar w x) ∷ fs))
  pub add_offset_object :
      (v o : ℕ) (b : fb.Builder) (p : ℕ) → object (fb.add_offset v o b) p ≡ object b p
  pub add_offset_pending :
      (v o : ℕ) (b : fb.Builder) (s : ℕ) (fs : Dict ℕ Slot)
      → pending b ≡ some (s, fs)
      → pending (fb.add_offset v o b) ≡ some (s, (if o == 0 then fs else (v, ref o) ∷ fs))
  pub end_table_stores :
      (s : ℕ) (b : fb.Builder) (fs : Dict ℕ Slot)
      → pending b ≡ some (s, fs)
      → Stores object pending b (fb.end_table s b).1 (fb.end_table s b).0 (table fs)
  pub finish_contents :
      (o : ℕ) (b : fb.Builder) (fs : Dict ℕ Slot)
      → pending b ≡ none
      → object b o ≡ some (table fs)
      → contents (fb.get_buffer (fb.finish o b)) ≡ some (resolve (object b) fs)
  -- a finished buffer begins with the offset of its root
  pub finish_nonempty : (o : ℕ) (b : fb.Builder) → fb.get_buffer (fb.finish o b) ≢ []
  pub get_field_absent :
      (w v d : ℕ) (buf : List ℕ) (cs : Dict ℕ Content)
      → contents buf ≡ some cs
      → find v cs ≡ none
      → fb.get_field w (fb.get_root buf) v d ≡ d
  pub get_field_present :
      (w v d x : ℕ) (buf : List ℕ) (cs : Dict ℕ Content)
      → contents buf ≡ some cs
      → find v cs ≡ some (number w x)
      → fb.get_field w (fb.get_root buf) v d ≡ x
  pub get_string_absent :
      (v : ℕ) (buf : List ℕ) (cs : Dict ℕ Content)
      → contents buf ≡ some cs
      → find v cs ≡ none
      → fb.get_string (fb.get_root buf) v ≡ none
  pub get_string_present :
      (v : ℕ) (s buf : List ℕ) (cs : Dict ℕ Content)
      → contents buf ≡ some cs
      → find v cs ≡ some (string s)
      → (p : fb.Str) × (fb.get_string (fb.get_root buf) v ≡ some p) × (fb.str p ≡ s)
  pub get_vector_absent :
      (v : ℕ) (buf : List ℕ) (cs : Dict ℕ Content)
      → contents buf ≡ some cs
      → find v cs ≡ none
      → fb.get_vector (fb.get_root buf) v ≡ none
  pub get_vector_present :
      (v : ℕ) (s buf : List ℕ) (cs : Dict ℕ Content)
      → contents buf ≡ some cs
      → find v cs ≡ some (vector s)
      → (p : fb.Vec) × (fb.get_vector (fb.get_root buf) v ≡ some p) × (fb.bytes p ≡ s)
  pub verifier_checks : (buf : List ℕ) → length buf < max_size → checks (fb.verifier buf) ≡ buf
  pub verifier_tables : (buf : List ℕ) → tables (fb.verifier buf) ≡ 0
  pub table_start_passes :
      (k : fb.Verifier) (cs : Dict ℕ Content)
      → contents (checks k) ≡ some cs
      → tables k < max_depth
      → Passes checks tables k (fb.verify_table_start (fb.get_root (checks k)) k) (suc (tables k))
  pub field_passes :
      (w v x : ℕ) (k : fb.Verifier) (cs : Dict ℕ Content)
      → contents (checks k) ≡ some cs
      → find v cs ≡ some (number w x)
      → Passes checks tables k (fb.verify_field w (fb.get_root (checks k)) v k) (tables k)
  pub field_absent_passes :
      (w v : ℕ) (k : fb.Verifier) (cs : Dict ℕ Content)
      → contents (checks k) ≡ some cs
      → find v cs ≡ none
      → Passes checks tables k (fb.verify_field w (fb.get_root (checks k)) v k) (tables k)
  pub string_passes :
      (v : ℕ) (s : List ℕ) (k : fb.Verifier) (cs : Dict ℕ Content)
      → contents (checks k) ≡ some cs
      → find v cs ≡ some (string s)
      → Passes checks tables k (fb.verify_offset (fb.get_root (checks k)) v k) (tables k)
        × Passes checks tables k
            (fb.verify_string (fb.get_string (fb.get_root (checks k)) v) k)
            (tables k)
  pub vector_passes :
      (v : ℕ) (s : List ℕ) (k : fb.Verifier) (cs : Dict ℕ Content)
      → contents (checks k) ≡ some cs
      → find v cs ≡ some (vector s)
      → Passes checks tables k (fb.verify_offset (fb.get_root (checks k)) v k) (tables k)
        × Passes checks tables k
            (fb.verify_vector (fb.get_vector (fb.get_root (checks k)) v) k)
            (tables k)
  pub string_absent_passes :
      (v : ℕ) (k : fb.Verifier) (cs : Dict ℕ Content)
      → contents (checks k) ≡ some cs
      → find v cs ≡ none
      → Passes checks tables k (fb.verify_offset (fb.get_root (checks k)) v k) (tables k)
        × Passes checks tables k
            (fb.verify_string (fb.get_string (fb.get_root (checks k)) v) k)
            (tables k)
  pub vector_absent_passes :
      (v : ℕ) (k : fb.Verifier) (cs : Dict ℕ Content)
      → contents (checks k) ≡ some cs
      → find v cs ≡ none
      → Passes checks tables k (fb.verify_offset (fb.get_root (checks k)) v k) (tables k)
        × Passes checks tables k
            (fb.verify_vector (fb.get_vector (fb.get_root (checks k)) v) k)
            (tables k)
  pub end_table_passes :
      (k : fb.Verifier) → Passes checks tables k (fb.verify_end_table k) (tables k)
  pub buffer_passes :
      (verify : fb.Table → fb.Verifier → Option fb.Verifier) (buf : List ℕ) (cs : Dict ℕ Content)
      (k : fb.Verifier)
      → contents buf ≡ some cs
      → length buf < max_size
      → verify (fb.get_root buf) (fb.verifier buf) ≡ some k
      → fb.verify_buffer verify (fb.verifier buf) ≡ true
