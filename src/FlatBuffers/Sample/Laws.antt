-- ===== src/FlatBuffers/Sample/Laws.antt =====
-- The sample runtime has the documented behaviour.
use zmq_ipc.Prelude.{
  ℕ, suc, ◌<◌, ◌≡◌, refl, Bool, true, false, Option, none, some, List, [], ◌∷◌, arith, nat_beq,
  nat_eq, ltb, if◌then◌else◌,
}
use zmq_ipc.Prelude.Dict.{Dict, find}
use zmq_ipc.FlatBuffers.Defs.{is_zero, Slot, scalar, ref, Obj, text, blob, table, Content, resolve}
use zmq_ipc.FlatBuffers.Laws.{FlatBuffersLaws, Stores, Passes}
use zmq_ipc.FlatBuffers.Sample.Codec.{encode, decode, decode-encode, encode-ne}
use zmq_ipc.FlatBuffers.Sample.Runtime.{
  Builder, object, store, add, added, fields_of, number_or, pointed, has_width, is_pointer, is_some,
  is_decoded, or_empty, sample,
}

abbrev pending : Builder → Option (ℕ × Dict ℕ Slot)
pending b = b.open_table

abbrev checks : List ℕ × ℕ → List ℕ
checks k = k.0

abbrev tables : List ℕ × ℕ → ℕ
tables k = k.1

store-Stores :
    (x : Obj) (b : Builder)
    → pending b ≡ none
    → Stores object pending b (store x b).1 (store x b).0 x
unfolding store find
store-Stores x b h = record {
  positive = omega arith;
  fresh = ground arith;
  stored = λ p. ground arith;
  closed = h;
}

-- the same for a table that is closed by the store
store-Stores-closed :
    (x : Obj) (b : Builder)
    → Stores object pending b
        (store x (record b { open_table = none })).1
        (store x (record b { open_table = none })).0
        x
unfolding store find
store-Stores-closed x b = record {
  positive = omega arith;
  fresh = ground arith;
  stored = λ p. ground arith;
  closed = refl;
}

add-pending :
    (v t : ℕ) (s : Slot) (fs : Dict ℕ Slot) (b : Builder)
    → pending b ≡ some (t, fs)
    → pending (add v s b) ≡ some (t, (v, s) ∷ fs)
unfolding add
add-pending v t s fs b h = ground arith

add-object : (v : ℕ) (s : Slot) (b : Builder) (p : ℕ) → object (add v s b) p ≡ object b p
unfolding add
add-object v s b p = ground arith

add_if-object :
    (c : Bool) (v : ℕ) (s : Slot) (b : Builder) (p : ℕ)
    → object (if c then b else add v s b) p ≡ object b p
add_if-object true v s b p = refl
add_if-object false v s b p = add-object v s b p

add_if-pending :
    (c : Bool) (v t : ℕ) (s : Slot) (fs : Dict ℕ Slot) (b : Builder)
    → pending b ≡ some (t, fs)
    → pending (if c then b else add v s b) ≡ some (t, (if c then fs else (v, s) ∷ fs))
add_if-pending true v t s fs b h = h
add_if-pending false v t s fs b h = add-pending v t s fs b h

end_table-Stores :
    (s : ℕ) (b : Builder) (fs : Dict ℕ Slot)
    → pending b ≡ some (s, fs)
    → Stores object pending b (sample.end_table s b).1 (sample.end_table s b).0 (table fs)
unfolding added
end_table-Stores s b fs h = simp h (store-Stores-closed (table fs) b)

finish-contents :
    (o : ℕ) (b : Builder) (fs : Dict ℕ Slot)
    → object b o ≡ some (table fs)
    → decode (encode (resolve (object b) (fields_of (object b o)))) ≡ some (resolve (object b) fs)
unfolding fields_of
finish-contents o b fs e = rw e (decode-encode _)

table_start-Passes :
    (k : List ℕ × ℕ) → k.1 < 64 → Passes checks tables k (sample.verify_table_start [] k) (suc k.1)
table_start-Passes k h =
    let e : ltb k.1 64 ≡ true = ground arith in
    record { next = (k.0, suc k.1); passed = rw e; same = refl; entered = refl }

Passes-if :
    (c : Bool) (k : List ℕ × ℕ) → c ≡ true → Passes checks tables k (if c then some k else none) k.1
Passes-if true k h = record { next = k; passed = refl; same = refl; entered = refl }
Passes-if false k h = cc

passes : (k : List ℕ × ℕ) → Passes checks tables k (some k) k.1
passes k = record { next = k; passed = refl; same = refl; entered = refl }

buffer-verified :
    (verify : Dict ℕ Content → List ℕ × ℕ → Option (List ℕ × ℕ)) (buf : List ℕ)
    (cs : Dict ℕ Content) (k : List ℕ × ℕ)
    → decode buf ≡ some cs
    → verify (or_empty (decode buf)) (buf, 0) ≡ some k
    → sample.verify_buffer verify (buf, 0) ≡ true
unfolding is_some is_decoded
buffer-verified verify buf cs k h p = rw (p, h)

pub sample-laws : FlatBuffersLaws sample
sample-laws = record {
  object = object;
  pending = pending;
  contents = decode;
  checks = checks;
  tables = tables;
  new_builder_pending = refl;
  create_string_stores = λ s. store-Stores (text s);
  create_vector_stores = λ s. store-Stores (blob s);
  start_table_object = λ b p. refl;
  start_table_pending = λ b h. refl;
  add_element_object = λ w v x d b p. add_if-object (nat_beq x d) v (scalar w x) b p;
  add_element_pending = λ w v x d b s fs _ h. add_if-pending (nat_beq x d) v s (scalar w x) fs b h;
  add_float_object = λ w v x b p. add_if-object (is_zero w x) v (scalar w x) b p;
  add_float_pending = λ w v x b s fs _ h. add_if-pending (is_zero w x) v s (scalar w x) fs b h;
  add_offset_object = λ v o b p. add_if-object (nat_beq o 0) v (ref o) b p;
  add_offset_pending = λ v o b s fs h. add_if-pending (nat_beq o 0) v s (ref o) fs b h;
  end_table_stores = λ s b fs h. end_table-Stores s b fs h;
  finish_nonempty = λ o b. encode-ne _;
  finish_contents = λ o b fs h e. finish-contents o b fs e;
  get_field_absent = λ w v d buf cs h e. unfold number_or in rw (h, e);
  get_field_present = λ w v d x buf cs h e. unfold number_or in rw (h, e);
  get_string_absent = λ v buf cs h e. unfold pointed in rw (h, e);
  get_string_present = λ v s buf cs h e. unfold pointed in (s, rw (h, e), refl);
  get_vector_absent = λ v buf cs h e. unfold pointed in rw (h, e);
  get_vector_present = λ v s buf cs h e. unfold pointed in (s, rw (h, e), refl);
  verifier_checks = λ buf h. refl;
  verifier_tables = λ buf. refl;
  table_start_passes = λ k cs h e. table_start-Passes k e;
  field_passes = λ w v x k cs h e. Passes-if _ k (unfold has_width in rw (h, e) (ground arith));
  field_absent_passes = λ w v k cs h e. Passes-if _ k (unfold has_width in rw (h, e));
  string_passes = λ v s k cs h e. (Passes-if _ k (unfold is_pointer in rw (h, e)), passes k);
  vector_passes = λ v s k cs h e. (Passes-if _ k (unfold is_pointer in rw (h, e)), passes k);
  string_absent_passes = λ v k cs h e. (Passes-if _ k (unfold is_pointer in rw (h, e)), passes k);
  vector_absent_passes = λ v k cs h e. (Passes-if _ k (unfold is_pointer in rw (h, e)), passes k);
  end_table_passes = λ k. passes k;
  buffer_passes = λ verify buf cs k h e p. buffer-verified verify buf cs k h p;
}
