-- ===== src/Params/Scalars.antt =====
-- The round trip of a table whose field is a number.
use zmq_ipc.Prelude.{
  ◌>>=◌, ℕ, ◌^◌, ◌<◌, ◌≡◌, refl, ap, ◌⊎◌, ◌∙◌, Bool, true, false, not, inl, inr, Option, none, some,
  List, [], ◌∷◌, arith, ◌==◌, nat_beq, nat_eq, if◌then◌else◌, length,
}
use zmq_ipc.Prelude.Dict.{Dict, find}
use zmq_ipc.FlatBuffers.{
  FlatBuffers, FlatBuffersLaws, is_zero, Slot, scalar, Obj, number, resolve, max_size,
}
use zmq_ipc.Rpc.Contents.{Stores-new}
use zmq_ipc.Rpc.Fields.{read_number, number-Passes, chain}
use zmq_ipc.Params.Reads.{Reads, buffer_of}

-- The fields of the table: none if the value was left out.
abbrev pub fields {ℓ} : {A : Type ℓ} → Bool → A → Dict ℕ A
fields left_out x = if left_out then [] else (4, x) ∷ []

zero_or : (x : ℕ) → (if x == 0 then 0 else x) ≡ x
zero_or x = ground arith

resolve-fields :
    (at : ℕ → Option Obj) (c : Bool) (w x : ℕ)
    → resolve at (fields c (scalar w x)) ≡ fields c (number w x)
resolve-fields at true w x = refl
resolve-fields at false w x = refl

find-fields :
    (c : Bool) (w x : ℕ)
    → (find 4 (fields c (number w x)) ≡ some (number w (if c then 0 else x)))
      ⊎ ((find 4 (fields c (number w x)) ≡ none) × ((if c then 0 else x) ≡ 0))
unfolding find
find-fields true w x = inr (refl, refl)
find-fields false w x = inl refl

module _ {fb : FlatBuffers} (laws : FlatBuffersLaws fb) where
  open laws use {object, pending, contents, checks, tables}

  -- the buffer of a table that was given the fields `fs`
  pub table-contents :
      (s : ℕ) (b : fb.Builder) (fs : Dict ℕ Slot)
      → pending b ≡ some (s, fs)
      → contents (buffer_of fb (fb.end_table s b)) ≡ some (resolve (object (fb.end_table s b).1) fs)
  table-contents s b fs h =
      let st = laws.end_table_stores s b fs h in
      laws.finish_contents _ _ _ st.closed (Stores-new laws st)

  empty_passes_from :
      (buf : List ℕ) (k : fb.Verifier)
      → contents buf ≡ some []
      → checks k ≡ buf
      → tables k ≡ 0
      → (z : fb.Verifier) × ((fb.verify_table_start (fb.get_root buf) k >>= λ k1.
            fb.verify_end_table k1)
          ≡ some z)
  empty_passes_from buf k h same fresh =
      chain laws fb.verify_table_start _ buf k _ same
        (laws.table_start_passes k _ (ap contents same ∙ h) (rw fresh (omega arith)))
        λ k1 s1 _. (_, (laws.end_table_passes k1).passed)

  -- the table that has no fields
  pub empty_verified :
      (b : fb.Builder)
      → pending b ≡ none
      → length (buffer_of fb (fb.end_table (fb.start_table b).0 (fb.start_table b).1)) < max_size
      → fb.verify_buffer
          (λ t k. do k1 ← fb.verify_table_start t k; fb.verify_end_table k1)
          (fb.verifier (buffer_of fb (fb.end_table (fb.start_table b).0 (fb.start_table b).1)))
        ≡ true
  empty_verified b idle small =
      let h = table-contents _ _ _ (laws.start_table_pending b idle) in
      let (k, passed) =
        empty_passes_from _ (fb.verifier _) h (laws.verifier_checks _ small)
          (laws.verifier_tables _) in
      laws.buffer_passes _ _ _ k h small passed

  module _ (c : Bool) (w x : ℕ) (buf : List ℕ) (h : contents buf ≡ some (fields c (number w x)))
      (small : length buf < max_size) where
    number_passes_from :
        (k : fb.Verifier)
        → checks k ≡ buf
        → tables k ≡ 0
        → (z : fb.Verifier) × ((fb.verify_table_start (fb.get_root buf) k >>= λ k1.
              fb.verify_field w (fb.get_root buf) 4 k1 >>= λ k2. fb.verify_end_table k2)
            ≡ some z)
    number_passes_from k same fresh =
        chain laws fb.verify_table_start _ buf k _ same
          (laws.table_start_passes k _ (ap contents same ∙ h) (rw fresh (omega arith)))
          λ k1 s1 _.
            chain laws (λ t. fb.verify_field w t 4) _ buf k1 _ s1
              (number-Passes laws w 4 _ k1 _ (ap contents s1 ∙ h) (find-fields c w x))
              λ k2 s2 _. (_, (laws.end_table_passes k2).passed)

    pub fields-Reads :
        Reads fb
          (λ t k. do
            k1 ← fb.verify_table_start t k
            k2 ← fb.verify_field w t 4 k1
            fb.verify_end_table k2)
          (λ t. fb.get_field w t 4 0)
          (if c then 0 else x)
          buf
    fields-Reads =
        let (k, passed) =
          number_passes_from (fb.verifier buf) (laws.verifier_checks buf small)
            (laws.verifier_tables buf) in
        record {
          verified = laws.buffer_passes _ buf _ k h small passed;
          valued = read_number laws w 4 _ buf _ h (find-fields c w x);
        }

  -- the table of a number, and that of a floating-point number
  abbrev number_table : fb.Builder → ℕ → ℕ → ℕ × fb.Builder
  number_table b w x =
      fb.end_table (fb.start_table b).0 (fb.add_element w 4 x 0 (fb.start_table b).1)

  abbrev float_table : fb.Builder → ℕ → ℕ → ℕ × fb.Builder
  float_table b w x = fb.end_table (fb.start_table b).0 (fb.add_float w 4 x (fb.start_table b).1)

  module _ (b : fb.Builder) (idle : pending b ≡ none) (w x : ℕ) (fits : x < 256 ^ w) where
    number-contents :
        contents (buffer_of fb (number_table b w x)) ≡ some (fields (x == 0) (number w x))
    number-contents =
        table-contents _ _ _
          (laws.add_element_pending _ _ _ _ _ _ _ fits (laws.start_table_pending b idle))
        ∙ ap some (resolve-fields _ (x == 0) w x)

    float-contents :
        contents (buffer_of fb (float_table b w x)) ≡ some (fields (is_zero w x) (number w x))
    float-contents =
        table-contents _ _ _
          (laws.add_float_pending _ _ _ _ _ _ fits (laws.start_table_pending b idle))
        ∙ ap some (resolve-fields _ (is_zero w x) w x)

    pub float-Reads :
        length (buffer_of fb (float_table b w x)) < max_size
        → Reads fb
            (λ t k. do
              k1 ← fb.verify_table_start t k
              k2 ← fb.verify_field w t 4 k1
              fb.verify_end_table k2)
            (λ t. fb.get_field w t 4 0)
            (if is_zero w x then 0 else x)
            (buffer_of fb (float_table b w x))
    float-Reads small = fields-Reads (is_zero w x) w x _ float-contents small

    pub number-Reads :
        length (buffer_of fb (number_table b w x)) < max_size
        → Reads fb
            (λ t k. do
              k1 ← fb.verify_table_start t k
              k2 ← fb.verify_field w t 4 k1
              fb.verify_end_table k2)
            (λ t. fb.get_field w t 4 0)
            x
            (buffer_of fb (number_table b w x))
    number-Reads small =
        let r = fields-Reads (x == 0) w x _ number-contents small in
        record { verified = r.verified; valued = r.valued ∙ zero_or x }

  -- the table of a Boolean
  pub bool-Reads :
      (b : fb.Builder) (idle : pending b ≡ none) (c : Bool)
      → length (buffer_of fb (number_table b 1 (if c then 1 else 0))) < max_size
      → Reads fb
          (λ t k. do
            k1 ← fb.verify_table_start t k
            k2 ← fb.verify_field 1 t 4 k1
            fb.verify_end_table k2)
          (λ t. not (nat_beq (fb.get_field 1 t 4 0) 0))
          c
          (buffer_of fb (number_table b 1 (if c then 1 else 0)))
  bool-Reads b idle true small =
      let r = number-Reads b idle 1 1 (omega arith) small in
      record { verified = r.verified; valued = rw r.valued refl }
  bool-Reads b idle false small =
      let r = number-Reads b idle 1 0 (omega arith) small in
      record { verified = r.verified; valued = rw r.valued refl }
