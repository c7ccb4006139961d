-- ===== src/Rpc/Fields.antt =====
-- Fields that may be left out: what the verifier and the reader say of numbers, strings and vectors of bytes, and
-- how the checks of a table are chained.
use zmq_ipc.Prelude.{
  ◌>>=◌, subst, sym, ◌⊎◌, ℕ, ◌≡◌, ap, ◌∙◌, inl, inr, Option, none, some, Option-cases, List, nat_eq,
}
use zmq_ipc.Prelude.Dict.{Dict, find}
use zmq_ipc.FlatBuffers.{FlatBuffers, FlatBuffersLaws, Content, number, string, vector, Passes}
use zmq_ipc.Params.Reads.{text_of, bytes_of}

abbrev pub content_of : (List ℕ → Content) → Option (List ℕ) → Option Content
content_of c none = none
content_of c (some s) = some (c s)

module _ {fb : FlatBuffers} (laws : FlatBuffersLaws fb) where
  open laws use {contents, checks, tables}

  -- A number field that was left out because it was 0 reads as 0 all the same.
  pub read_number :
      (w v x : ℕ) (buf : List ℕ) (cs : Dict ℕ Content)
      → contents buf ≡ some cs
      → (find v cs ≡ some (number w x)) ⊎ ((find v cs ≡ none) × (x ≡ 0))
      → fb.get_field w (fb.get_root buf) v 0 ≡ x
  read_number w v x buf cs h (inl e) = laws.get_field_present w v 0 x buf cs h e
  read_number w v x buf cs h (inr (e, z)) = laws.get_field_absent w v 0 buf cs h e ∙ sym z

  pub number-Passes :
      (w v x : ℕ) (k : fb.Verifier) (cs : Dict ℕ Content)
      → contents (checks k) ≡ some cs
      → (find v cs ≡ some (number w x)) ⊎ ((find v cs ≡ none) × (x ≡ 0))
      → Passes checks tables k (fb.verify_field w (fb.get_root (checks k)) v k) (tables k)
  number-Passes w v x k cs h (inl e) = laws.field_passes w v x k cs h e
  number-Passes w v x k cs h (inr (e, z)) = laws.field_absent_passes w v k cs h e

  -- One check of a chain over the buffer `buf`, and the rest of the chain.
  pub chain :
      (op : fb.Table → fb.Verifier → Option fb.Verifier) (f : fb.Verifier → Option fb.Verifier)
      (buf : List ℕ) (k : fb.Verifier) (n : ℕ)
      → checks k ≡ buf
      → Passes checks tables k (op (fb.get_root (checks k)) k) n
      → ((k' : fb.Verifier) → checks k' ≡ buf → tables k' ≡ n → (z : fb.Verifier) × (f k' ≡ some z))
      → (z : fb.Verifier) × ((op (fb.get_root buf) k >>= f) ≡ some z)
  chain op f buf k n same p rest =
      let (z, e) = rest p.next (p.same ∙ same) p.entered in
      let passed : op (fb.get_root buf) k ≡ some p.next =
        subst (λ d. op (fb.get_root d) k ≡ some p.next) same p.passed in
      (z, rw passed e)

module _ {fb : FlatBuffers} (laws : FlatBuffersLaws fb) (v : ℕ) (s : Option (List ℕ)) (buf : List ℕ)
    (cs : Dict ℕ Content) (h : FlatBuffersLaws.contents laws buf ≡ some cs) where
  open laws use {contents, checks, tables}

  module _ (held : find v cs ≡ content_of string s) where
    pub string_checked :
        (k : fb.Verifier)
        → checks k ≡ buf
        → Passes checks tables k (fb.verify_offset (fb.get_root (checks k)) v k) (tables k)
          × Passes checks tables k
              (fb.verify_string (fb.get_string (fb.get_root (checks k)) v) k)
              (tables k)
    string_checked k same = elim (Option-cases s) [
      | inl e ↦ laws.string_absent_passes v k _ (ap contents same ∙ h) (rw e at held)
      | inr (x, e) ↦ laws.string_passes v x k _ (ap contents same ∙ h) (rw e at held)
    ]

    pub string_pointed : text_of fb (fb.get_string (fb.get_root buf) v) ≡ s
    string_pointed = elim (Option-cases s) [
      | inl e ↦ rw (laws.get_string_absent v buf _ h (rw e at held), e)
      | inr (x, e) ↦
          let (p, got, points) = laws.get_string_present v x buf _ h (rw e at held) in
          rw (got, points, e)
    ]

  module _ (held : find v cs ≡ content_of vector s) where
    pub vector_checked :
        (k : fb.Verifier)
        → checks k ≡ buf
        → Passes checks tables k (fb.verify_offset (fb.get_root (checks k)) v k) (tables k)
          × Passes checks tables k
              (fb.verify_vector (fb.get_vector (fb.get_root (checks k)) v) k)
              (tables k)
    vector_checked k same = elim (Option-cases s) [
      | inl e ↦ laws.vector_absent_passes v k _ (ap contents same ∙ h) (rw e at held)
      | inr (x, e) ↦ laws.vector_passes v x k _ (ap contents same ∙ h) (rw e at held)
    ]

    pub vector_pointed : bytes_of fb (fb.get_vector (fb.get_root buf) v) ≡ s
    vector_pointed = elim (Option-cases s) [
      | inl e ↦ rw (laws.get_vector_absent v buf _ h (rw e at held), e)
      | inr (x, e) ↦
          let (p, got, points) = laws.get_vector_present v x buf _ h (rw e at held) in
          rw (got, points, e)
    ]
