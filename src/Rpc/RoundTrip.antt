-- ===== src/Rpc/RoundTrip.antt =====
-- What the reader and the verifier of RpcMessage say of a buffer that holds a message.
use zmq_ipc.Prelude.{refl, ℕ, ◌<◌, ◌≡◌, true, Option, none, some, List, nat_eq, length}
use zmq_ipc.FlatBuffers.{FlatBuffers, FlatBuffersLaws, max_size}
use zmq_ipc.Rpc.{type, id, method, payload, verify}
use zmq_ipc.Rpc.Contents.{message_contents}
use zmq_ipc.Rpc.Direct.{direct_contents, direct_contents-Fields, Holds-of_contents}
use zmq_ipc.Params.Reads.{text_of, bytes_of}

pub text_of-some :
    (fb : FlatBuffers) (p : Option fb.Str) (s : List ℕ)
    → text_of fb p ≡ some s
    → (q : fb.Str) × (p ≡ some q) × (fb.str q ≡ s)
text_of-some fb none s e = cc
text_of-some fb (some q) s e = (q, refl, cc)

pub bytes_of-some :
    (fb : FlatBuffers) (p : Option fb.Vec) (s : List ℕ)
    → bytes_of fb p ≡ some s
    → (q : fb.Vec) × (p ≡ some q) × (fb.bytes q ≡ s)
bytes_of-some fb none s e = cc
bytes_of-some fb (some q) s e = (q, refl, cc)

-- The buffer passes the verifier, and each accessor returns what the message was built from.
pub record Carries (fb : FlatBuffers) (buf : List ℕ) (ty i : ℕ) (name load : List ℕ) : Type 0 where
  pub verified : fb.verify_buffer (verify fb) (fb.verifier buf) ≡ true
  pub typed : type fb (fb.get_root buf) ≡ ty
  pub numbered : id fb (fb.get_root buf) ≡ i
  pub name_ptr : fb.Str
  pub named : method fb (fb.get_root buf) ≡ some name_ptr
  pub name_bytes : fb.str name_ptr ≡ name
  pub load_ptr : fb.Vec
  pub loaded : payload fb (fb.get_root buf) ≡ some load_ptr
  pub load_bytes : fb.bytes load_ptr ≡ load

module _ {fb : FlatBuffers} (laws : FlatBuffersLaws fb) where
  open laws use {contents}

  pub Carries-of_contents :
      (ty i : ℕ) (name load buf : List ℕ)
      → contents buf ≡ some (message_contents ty i name load)
      → length buf < max_size
      → Carries fb buf ty i name load
  unfolding message_contents direct_contents
  Carries-of_contents ty i name load buf h small =
      let holds =
        Holds-of_contents laws ty i (some name) (some load) buf
          (direct_contents ty i (some name) (some load)) h
          (direct_contents-Fields ty i (some name) (some load)) small in
      let (p, named, name_bytes) = text_of-some fb (method fb (fb.get_root buf)) name holds.named in
      let (q, loaded, load_bytes) =
        bytes_of-some fb (payload fb (fb.get_root buf)) load holds.loaded in
      record {
        verified = holds.verified;
        typed = holds.typed;
        numbered = holds.numbered;
        name_ptr = p;
        named = named;
        name_bytes = name_bytes;
        load_ptr = q;
        loaded = loaded;
        load_bytes = load_bytes;
      }
