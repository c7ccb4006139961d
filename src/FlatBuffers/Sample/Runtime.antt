-- ===== src/FlatBuffers/Sample/Runtime.antt =====
-- The sample runtime: the operations over an explicit table of objects.
use zmq_ipc.Prelude.{
  ℕ, suc, Bool, true, false, Option, none, some, List, [], ◌∷◌, nat_beq, nat_eq, ltb, if◌then◌else◌,
}
use zmq_ipc.Prelude.Dict.{Dict, find}
use zmq_ipc.FlatBuffers.Defs.{
  FlatBuffers, is_zero, Slot, scalar, ref, Obj, text, blob, table, Content, number, string, vector,
  resolve,
}
use zmq_ipc.FlatBuffers.Sample.Codec.{encode, decode}

pub record Builder : Type 0 where
  pub count : ℕ
  pub objs : Dict ℕ Obj
  pub open_table : Option (ℕ × Dict ℕ Slot)
  pub root : Dict ℕ Content

abbrev pub object : Builder → ℕ → Option Obj
object b o = if ltb o (suc b.count) then find o b.objs else none

unfoldable pub store : Obj → Builder → ℕ × Builder
store x b = (suc b.count, record b { count = suc b.count; objs = (suc b.count, x) ∷ b.objs })

unfoldable pub add : ℕ → Slot → Builder → Builder
add v s b = elim b.open_table [
  | none ↦ b
  | some (t, fs) ↦ record b { open_table = some (t, (v, s) ∷ fs) }
]

unfoldable pub added : Option (ℕ × Dict ℕ Slot) → Dict ℕ Slot
added none = []
added (some (t, fs)) = fs

unfoldable pub fields_of : Option Obj → Dict ℕ Slot
fields_of none = []
fields_of (some (text s)) = []
fields_of (some (blob s)) = []
fields_of (some (table fs)) = fs

abbrev pub or_empty : Option (Dict ℕ Content) → Dict ℕ Content
or_empty none = []
or_empty (some cs) = cs

unfoldable pub number_or : ℕ → Option Content → ℕ
number_or d none = d
number_or d (some (number w x)) = x
number_or d (some (string s)) = d
number_or d (some (vector s)) = d

unfoldable pub pointed : Option Content → Option (List ℕ)
pointed none = none
pointed (some (number w x)) = none
pointed (some (string s)) = some s
pointed (some (vector s)) = some s

unfoldable pub has_width : ℕ → Option Content → Bool
has_width w none = true
has_width w (some (number u x)) = nat_beq u w
has_width w (some (string s)) = false
has_width w (some (vector s)) = false

unfoldable pub is_pointer : Option Content → Bool
is_pointer none = true
is_pointer (some (number u x)) = false
is_pointer (some (string s)) = true
is_pointer (some (vector s)) = true

unfoldable pub is_some : Option (List ℕ × ℕ) → Bool
is_some none = false
is_some (some k) = true

unfoldable pub is_decoded : Option (Dict ℕ Content) → Bool
is_decoded none = false
is_decoded (some cs) = true

abbrev pub sample : FlatBuffers
sample = record {
  Builder = Builder;
  Table = Dict ℕ Content;
  Str = List ℕ;
  Vec = List ℕ;
  Verifier = List ℕ × ℕ;
  new_builder = record { count = 0; objs = []; open_table = none; root = [] };
  create_string = λ s. store (text s);
  create_vector = λ s. store (blob s);
  start_table = λ b. (b.count, record b { open_table = some (b.count, []) });
  add_element = λ w v x d b. if nat_beq x d then b else add v (scalar w x) b;
  add_float = λ w v x b. if is_zero w x then b else add v (scalar w x) b;
  add_offset = λ v o b. if nat_beq o 0 then b else add v (ref o) b;
  end_table = λ s b. store (table (added b.open_table)) (record b { open_table = none });
  finish = λ o b. record b { root = resolve (object b) (fields_of (object b o)) };
  get_buffer = λ b. encode b.root;
  get_root = λ buf. or_empty (decode buf);
  get_field = λ w t v d. number_or d (find v t);
  get_string = λ t v. pointed (find v t);
  get_vector = λ t v. pointed (find v t);
  str = λ s. s;
  bytes = λ s. s;
  verifier = λ buf. (buf, 0);
  verify_table_start = λ t k. if ltb k.1 64 then some (k.0, suc k.1) else none;
  verify_field = λ w t v k. if has_width w (find v t) then some k else none;
  verify_offset = λ t v k. if is_pointer (find v t) then some k else none;
  verify_string = λ p k. some k;
  verify_vector = λ p k. some k;
  verify_end_table = λ k. some k;
  verify_buffer = λ verify k.
      if is_decoded (decode k.0) then is_some (verify (or_empty (decode k.0)) k) else false;
}
