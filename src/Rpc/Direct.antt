-- ===== src/Rpc/Direct.antt =====
-- include/rpc_generated.h: a message whose method and payload may be left out, by what its buffer holds.
use zmq_ipc.Prelude.{
  ℕ, ◌<◌, ◌≡◌, ap, ◌∙◌, ◌⊎◌, true, Option, none, some, List, [], ◌∷◌, arith, nat_eq, length,
}
use zmq_ipc.Prelude.Dict.{Dict, find}
use zmq_ipc.FlatBuffers.{
  FlatBuffers, FlatBuffersLaws, Obj, text, blob, Content, number, string, vector, resolve, max_size,
}
use zmq_ipc.Rpc.{vt_type, vt_id, vt_method, vt_payload, type, id, method, payload, verify}
use zmq_ipc.Rpc.Contents.{unless_zero, message_fields}
use zmq_ipc.Rpc.Fields.{
  content_of, chain, read_number, number-Passes, string_checked, string_pointed, vector_checked,
  vector_pointed,
}
use zmq_ipc.Params.Reads.{text_of, bytes_of}

-- The buffer passes the verifier, and each accessor returns what the message was built from: a null pointer
-- for what was left out.
pub record Holds (fb : FlatBuffers) (buf : List ℕ) (ty i : ℕ) (name load : Option (List ℕ))
    : Type 0 where
  pub verified : fb.verify_buffer (verify fb) (fb.verifier buf) ≡ true
  pub typed : type fb (fb.get_root buf) ≡ ty
  pub numbered : id fb (fb.get_root buf) ≡ i
  pub named : text_of fb (method fb (fb.get_root buf)) ≡ name
  pub loaded : bytes_of fb (payload fb (fb.get_root buf)) ≡ load

abbrev optional : ℕ → (List ℕ → Content) → Option (List ℕ) → Dict ℕ Content → Dict ℕ Content
optional v c none rest = rest
optional v c (some s) rest = (v, c s) ∷ rest

-- What a message holds, either of its pointers null or not.
unfoldable pub direct_contents : ℕ → ℕ → Option (List ℕ) → Option (List ℕ) → Dict ℕ Content
direct_contents ty i name load =
    unless_zero ty (vt_type, number 1 ty)
      (unless_zero i (vt_id, number 4 i)
        (optional vt_method string name (optional vt_payload vector load [])))

-- An offset points to the object that was created, and is null if there was none.
abbrev pub Points : (ℕ → Option Obj) → ℕ → (List ℕ → Obj) → Option (List ℕ) → Type 0
Points at o x none = o ≡ 0
Points at o x (some s) = (0 < o) × (at o ≡ some (x s))

pub resolve-direct :
    (at : ℕ → Option Obj) (ty i m p : ℕ) (name load : Option (List ℕ))
    → Points at m text name
    → Points at p blob load
    → resolve at (message_fields ty i m p) ≡ direct_contents ty i name load
unfolding direct_contents
resolve-direct at ty i m p none none hm hp = ground arith
resolve-direct at ty i m p none (some load) hm (hp, ep) = ground arith
resolve-direct at ty i m p (some name) none (hm, em) hp = ground arith
resolve-direct at ty i m p (some name) (some load) (hm, em) (hp, ep) = ground arith

-- What each field of the message reads as.
pub record Fields (cs : Dict ℕ Content) (ty i : ℕ) (name load : Option (List ℕ)) : Type 0 where
  pub has_type : (find vt_type cs ≡ some (number 1 ty)) ⊎ ((find vt_type cs ≡ none) × (ty ≡ 0))
  pub has_id : (find vt_id cs ≡ some (number 4 i)) ⊎ ((find vt_id cs ≡ none) × (i ≡ 0))
  pub has_method : find vt_method cs ≡ content_of string name
  pub has_payload : find vt_payload cs ≡ content_of vector load

pub direct_contents-Fields :
    (ty i : ℕ) (name load : Option (List ℕ))
    → Fields (direct_contents ty i name load) ty i name load
unfolding direct_contents find
direct_contents-Fields ty i none none = record {
  has_type = ground arith;
  has_id = ground arith;
  has_method = ground arith;
  has_payload = ground arith;
}
direct_contents-Fields ty i none (some load) = record {
  has_type = ground arith;
  has_id = ground arith;
  has_method = ground arith;
  has_payload = ground arith;
}
direct_contents-Fields ty i (some name) none = record {
  has_type = ground arith;
  has_id = ground arith;
  has_method = ground arith;
  has_payload = ground arith;
}
direct_contents-Fields ty i (some name) (some load) = record {
  has_type = ground arith;
  has_id = ground arith;
  has_method = ground arith;
  has_payload = ground arith;
}

module _ {fb : FlatBuffers} (laws : FlatBuffersLaws fb) where
  open laws use {object, pending, contents, checks, tables}

  module _ (ty i : ℕ) (name load : Option (List ℕ)) (buf : List ℕ) (cs : Dict ℕ Content)
      (h : contents buf ≡ some cs) (fields : Fields cs ty i name load) where
    verify_passes :
        (k : fb.Verifier)
        → checks k ≡ buf
        → tables k ≡ 0
        → (k' : fb.Verifier) × (verify fb (fb.get_root buf) k ≡ some k')
    unfolding verify method payload
    verify_passes k same fresh =
        chain laws fb.verify_table_start _ buf k _ same
          (laws.table_start_passes k _ (held k same) (rw fresh (omega arith)))
          λ k1 s1 _.
            chain laws (λ t. fb.verify_field 1 t vt_type) _ buf k1 _ s1
              (number-Passes laws 1 vt_type ty k1 _ (held k1 s1) fields.has_type)
              λ k2 s2 _.
                chain laws (λ t. fb.verify_field 4 t vt_id) _ buf k2 _ s2
                  (number-Passes laws 4 vt_id i k2 _ (held k2 s2) fields.has_id)
                  λ k3 s3 _.
                    chain laws (λ t. fb.verify_offset t vt_method) _ buf k3 _ s3
                      (string_checked laws vt_method name buf cs h fields.has_method k3 s3).0
                      λ k4 s4 _.
                        chain laws (λ t. fb.verify_string (fb.get_string t vt_method)) _ buf k4 _ s4
                          (string_checked laws vt_method name buf cs h fields.has_method k4 s4).1
                          λ k5 s5 _.
                            chain laws (λ t. fb.verify_offset t vt_payload) _ buf k5 _ s5
                              (vector_checked laws vt_payload load buf cs h fields.has_payload k5
                                s5).0
                              λ k6 s6 _.
                                chain laws (λ t. fb.verify_vector (fb.get_vector t vt_payload)) _
                                  buf k6 _ s6
                                  (vector_checked laws vt_payload load buf cs h fields.has_payload
                                    k6 s6).1
                                  λ k7 s7 _. (_, (laws.end_table_passes k7).passed)
      where
        held : (k : fb.Verifier) → checks k ≡ buf → contents (checks k) ≡ some cs
        held k same = ap contents same ∙ h

    pub Holds-of_contents : length buf < max_size → Holds fb buf ty i name load
    unfolding type id method payload
    Holds-of_contents small =
        let (k, passed) =
          verify_passes (fb.verifier buf) (laws.verifier_checks buf small)
            (laws.verifier_tables buf) in
        record {
          verified = laws.buffer_passes _ buf _ k h small passed;
          typed = read_number laws 1 vt_type ty buf _ h fields.has_type;
          numbered = read_number laws 4 vt_id i buf _ h fields.has_id;
          named = string_pointed laws vt_method name buf cs h fields.has_method;
          loaded = vector_pointed laws vt_payload load buf cs h fields.has_payload;
        }
