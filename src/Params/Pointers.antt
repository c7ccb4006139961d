-- ===== src/Params/Pointers.antt =====
-- The round trip of a table whose field is a string or a vector of bytes.
use zmq_ipc.Prelude.{
  ◌>>=◌, ℕ, ◌<◌, ◌≡◌, refl, ap, ◌∙◌, Option, none, some, List, [], ◌∷◌, arith, ◌==◌, nat_eq,
  if◌then◌else◌, length,
}
use zmq_ipc.Prelude.Dict.{Dict, find}
use zmq_ipc.FlatBuffers.{
  FlatBuffers, FlatBuffersLaws, ref, Obj, text, blob, Content, string, vector, resolve, max_size,
}
use zmq_ipc.Rpc.{or_null}
use zmq_ipc.Rpc.Contents.{Stores-new, Stores-keeps}
use zmq_ipc.Rpc.Fields.{chain}
use zmq_ipc.Rpc.Fields.{content_of, string_checked, string_pointed, vector_checked, vector_pointed}
use zmq_ipc.Params.Reads.{Reads, buffer_of, text_of, bytes_of}
use zmq_ipc.Params.Scalars.{table-contents}

abbrev one_field : Option Content → Dict ℕ Content
one_field none = []
one_field (some c) = (4, c) ∷ []

find-one_field : (c : Option Content) → find 4 (one_field c) ≡ c
unfolding find
find-one_field none = refl
find-one_field (some c) = refl

resolve_string :
    (at : ℕ → Option Obj) (o : ℕ) (s : List ℕ)
    → 0 < o
    → at o ≡ some (text s)
    → resolve at (if o == 0 then [] else (4, ref o) ∷ []) ≡ (4, string s) ∷ []
resolve_string at o s h e = ground arith

resolve_vector :
    (at : ℕ → Option Obj) (o : ℕ) (s : List ℕ)
    → 0 < o
    → at o ≡ some (blob s)
    → resolve at (if o == 0 then [] else (4, ref o) ∷ []) ≡ (4, vector s) ∷ []
resolve_vector at o s h e = ground arith

module _ {fb : FlatBuffers} (laws : FlatBuffersLaws fb) where
  open laws use {object, pending, contents, checks, tables}

  -- the table whose field is the offset `o`
  abbrev offset_table : ℕ × fb.Builder → ℕ × fb.Builder
  offset_table (o, b) = fb.end_table (fb.start_table b).0 (fb.add_offset 4 o (fb.start_table b).1)

  offset-pending :
      (o : ℕ) (b : fb.Builder)
      → pending b ≡ none
      → pending (fb.add_offset 4 o (fb.start_table b).1)
        ≡ some ((fb.start_table b).0, (if o == 0 then [] else (4, ref o) ∷ []))
  offset-pending o b idle = laws.add_offset_pending _ _ _ _ _ (laws.start_table_pending b idle)

  offset-object :
      (o : ℕ) (b : fb.Builder) (x : Obj) (p : ℕ)
      → pending b ≡ none
      → object b p ≡ some x
      → object (offset_table (o, b)).1 p ≡ some x
  offset-object o b x p idle e =
      Stores-keeps laws p x (laws.end_table_stores _ _ _ (offset-pending o b idle))
        (laws.add_offset_object _ _ _ p ∙ laws.start_table_object b p ∙ e)

  offset-contents :
      (o : ℕ) (b : fb.Builder)
      → pending b ≡ none
      → contents (buffer_of fb (offset_table (o, b)))
        ≡ some (resolve (object (offset_table (o, b)).1) (if o == 0 then [] else (4, ref o) ∷ []))
  offset-contents o b idle = table-contents laws _ _ _ (offset-pending o b idle)

  module _ (b : fb.Builder) (idle : pending b ≡ none) where
    string-contents :
        (s : Option (List ℕ))
        → contents (buffer_of fb (offset_table (or_null fb fb.create_string s b)))
          ≡ some (one_field (content_of string s))
    string-contents none = offset-contents 0 b idle
    string-contents (some s) =
        let st = laws.create_string_stores s b idle in
        offset-contents _ _ st.closed
        ∙ ap some (
            resolve_string _ _ s st.positive (offset-object _ _ _ _ st.closed (Stores-new laws st)))

    vector-contents :
        (s : Option (List ℕ))
        → contents (buffer_of fb (offset_table (or_null fb fb.create_vector s b)))
          ≡ some (one_field (content_of vector s))
    vector-contents none = offset-contents 0 b idle
    vector-contents (some s) =
        let st = laws.create_vector_stores s b idle in
        offset-contents _ _ st.closed
        ∙ ap some (
            resolve_vector _ _ s st.positive (offset-object _ _ _ _ st.closed (Stores-new laws st)))

  module _ (s : Option (List ℕ)) (buf : List ℕ)
      (h : contents buf ≡ some (one_field (content_of string s))) where
    string_passes_from :
        (k : fb.Verifier)
        → checks k ≡ buf
        → tables k ≡ 0
        → (z : fb.Verifier) × ((fb.verify_table_start (fb.get_root buf) k >>= λ k1.
              fb.verify_offset (fb.get_root buf) 4 k1 >>= λ k2.
              fb.verify_string (fb.get_string (fb.get_root buf) 4) k2 >>= λ k3.
              fb.verify_end_table k3)
            ≡ some z)
    string_passes_from k same fresh =
        chain laws fb.verify_table_start _ buf k _ same
          (laws.table_start_passes k _ (ap contents same ∙ h) (rw fresh (omega arith)))
          λ k1 s1 _.
            chain laws (λ t. fb.verify_offset t 4) _ buf k1 _ s1
              (string_checked laws 4 s buf _ h (find-one_field _) k1 s1).0
              λ k2 s2 _.
                chain laws (λ t. fb.verify_string (fb.get_string t 4)) _ buf k2 _ s2
                  (string_checked laws 4 s buf _ h (find-one_field _) k2 s2).1
                  λ k3 s3 _. (_, (laws.end_table_passes k3).passed)

  pub string-Reads :
      (b : fb.Builder)
      → pending b ≡ none
      → (s : Option (List ℕ))
      → length (buffer_of fb (offset_table (or_null fb fb.create_string s b))) < max_size
      → Reads fb
          (λ t k. do
            k1 ← fb.verify_table_start t k
            k2 ← fb.verify_offset t 4 k1
            k3 ← fb.verify_string (fb.get_string t 4) k2
            fb.verify_end_table k3)
          (λ t. text_of fb (fb.get_string t 4))
          s
          (buffer_of fb (offset_table (or_null fb fb.create_string s b)))
  string-Reads b idle s small =
      let h = string-contents b idle s in
      let (k, passed) =
        string_passes_from s _ h (fb.verifier _) (laws.verifier_checks _ small)
          (laws.verifier_tables _) in
      record {
        verified = laws.buffer_passes _ _ _ k h small passed;
        valued = string_pointed laws 4 s _ _ h (find-one_field _);
      }

  module _ (s : Option (List ℕ)) (buf : List ℕ)
      (h : contents buf ≡ some (one_field (content_of vector s))) where
    vector_passes_from :
        (k : fb.Verifier)
        → checks k ≡ buf
        → tables k ≡ 0
        → (z : fb.Verifier) × ((fb.verify_table_start (fb.get_root buf) k >>= λ k1.
              fb.verify_offset (fb.get_root buf) 4 k1 >>= λ k2.
              fb.verify_vector (fb.get_vector (fb.get_root buf) 4) k2 >>= λ k3.
              fb.verify_end_table k3)
            ≡ some z)
    vector_passes_from k same fresh =
        chain laws fb.verify_table_start _ buf k _ same
          (laws.table_start_passes k _ (ap contents same ∙ h) (rw fresh (omega arith)))
          λ k1 s1 _.
            chain laws (λ t. fb.verify_offset t 4) _ buf k1 _ s1
              (vector_checked laws 4 s buf _ h (find-one_field _) k1 s1).0
              λ k2 s2 _.
                chain laws (λ t. fb.verify_vector (fb.get_vector t 4)) _ buf k2 _ s2
                  (vector_checked laws 4 s buf _ h (find-one_field _) k2 s2).1
                  λ k3 s3 _. (_, (laws.end_table_passes k3).passed)

  pub vector-Reads :
      (b : fb.Builder)
      → pending b ≡ none
      → (s : Option (List ℕ))
      → length (buffer_of fb (offset_table (or_null fb fb.create_vector s b))) < max_size
      → Reads fb
          (λ t k. do
            k1 ← fb.verify_table_start t k
            k2 ← fb.verify_offset t 4 k1
            k3 ← fb.verify_vector (fb.get_vector t 4) k2
            fb.verify_end_table k3)
          (λ t. bytes_of fb (fb.get_vector t 4))
          s
          (buffer_of fb (offset_table (or_null fb fb.create_vector s b)))
  vector-Reads b idle s small =
      let h = vector-contents b idle s in
      let (k, passed) =
        vector_passes_from s _ h (fb.verifier _) (laws.verifier_checks _ small)
          (laws.verifier_tables _) in
      record {
        verified = laws.buffer_passes _ _ _ k h small passed;
        valued = vector_pointed laws 4 s _ _ h (find-one_field _);
      }
