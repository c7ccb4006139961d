-- ===== src/FlatBuffers/Defs.antt =====
-- The operations of the FlatBuffers runtime, and what their laws speak of.
use zmq_ipc.Prelude.{ℕ, ◌-◌, ◌*◌, ◌^◌, ◌||◌, Bool, Option, none, some, List, [], ◌∷◌, ◌==◌, nat_eq}
use zmq_ipc.Prelude.Dict.{Dict}

pub record FlatBuffers : Type 1 where
  pub Builder : Type 0
  pub Table : Type 0
  pub Str : Type 0
  pub Vec : Type 0
  pub Verifier : Type 0
  -- FlatBufferBuilder; an offset is a number, and 0 is the null offset.
  pub new_builder : Builder
  pub create_string : List ℕ → Builder → ℕ × Builder
  pub create_vector : List ℕ → Builder → ℕ × Builder
  pub start_table : Builder → ℕ × Builder
  -- AddElement<T>(field, e, def), with sizeof(T) first and values as bit patterns
  pub add_element : ℕ → ℕ → ℕ → ℕ → Builder → Builder
  -- AddElement<T>(field, e, 0.0) for a float or a double, with sizeof(T) first
  pub add_float : ℕ → ℕ → ℕ → Builder → Builder
  -- AddOffset(field, off)
  pub add_offset : ℕ → ℕ → Builder → Builder
  pub end_table : ℕ → Builder → ℕ × Builder
  pub finish : ℕ → Builder → Builder
  -- the GetSize() bytes at GetBufferPointer()
  pub get_buffer : Builder → List ℕ
  -- GetRoot<T>, Table::GetField<T>(field, def) with sizeof(T) first, Table::GetPointer
  pub get_root : List ℕ → Table
  pub get_field : ℕ → Table → ℕ → ℕ → ℕ
  pub get_string : Table → ℕ → Option Str
  pub get_vector : Table → ℕ → Option Vec
  pub str : Str → List ℕ
  pub bytes : Vec → List ℕ
  -- Verifier(data, len) and its checks, which count what they have seen; `none` is `false`
  pub verifier : List ℕ → Verifier
  pub verify_table_start : Table → Verifier → Option Verifier
  pub verify_field : ℕ → Table → ℕ → Verifier → Option Verifier
  pub verify_offset : Table → ℕ → Verifier → Option Verifier
  pub verify_string : Option Str → Verifier → Option Verifier
  pub verify_vector : Option Vec → Verifier → Option Verifier
  pub verify_end_table : Verifier → Option Verifier
  -- VerifyBuffer<T>(), given T::Verify
  pub verify_buffer : (Table → Verifier → Option Verifier) → Verifier → Bool

-- The bit patterns that a floating-point number of `w` bytes compares equal to 0.0 with: those of 0.0
-- and of -0.0.
abbrev pub is_zero : ℕ → ℕ → Bool
is_zero w x = x == 0 || x == 2 ^ (8 * w - 1)

-- What a table under construction has been given: numbers with their width, and offsets.
pub data Slot : Type 0 where
  scalar : ℕ → ℕ → Slot
  ref : ℕ → Slot

pub data Obj : Type 0 where
  text : List ℕ → Obj
  blob : List ℕ → Obj
  table : Dict ℕ Slot → Obj

-- What a field of a finished table holds.
pub data Content : Type 0 where
  number : ℕ → ℕ → Content
  string : List ℕ → Content
  vector : List ℕ → Content

abbrev pub resolve_slot : (ℕ → Option Obj) → Slot → Option Content
resolve_slot at (scalar w x) = some (number w x)
resolve_slot at (ref o) = elim (at o) [
  | none ↦ none
  | some (text s) ↦ some (string s)
  | some (blob s) ↦ some (vector s)
  | some (table fs) ↦ none
]

abbrev pub resolve : (ℕ → Option Obj) → Dict ℕ Slot → Dict ℕ Content
resolve at [] = []
resolve at ((v, s) ∷ fs) = elim (resolve_slot at s) [
  | none ↦ resolve at fs
  | some c ↦ (v, c) ∷ resolve at fs
]

-- The size limit of a buffer, FLATBUFFERS_MAX_BUFFER_SIZE.
abbrev pub max_size : ℕ
max_size = 2 ^ 31 - 1

-- The limit on nested tables, Verifier::Options::max_depth.
abbrev pub max_depth : ℕ
max_depth = 64
