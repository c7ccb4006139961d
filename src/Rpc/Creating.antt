-- ===== src/Rpc/Creating.antt =====
-- CreateRpcMessageDirect of include/rpc_generated.h, which takes pointers that may be null.
use zmq_ipc.Prelude.{ℕ, ◌^◌, ◌<◌, ◌≡◌, refl, ap, ◌∙◌, Option, none, some, List, length}
use zmq_ipc.FlatBuffers.{FlatBuffers, FlatBuffersLaws, Obj, text, blob, max_size}
use zmq_ipc.Rpc.{or_null, create_rpc_message_direct}
use zmq_ipc.Rpc.Contents.{
  Stores-new, Stores-keeps, create_rpc_message-object, create_rpc_message-resolve,
}
use zmq_ipc.Rpc.Direct.{Holds, Points, resolve-direct, direct_contents-Fields, Holds-of_contents}
use zmq_ipc.Params.Reads.{buffer_of}

module _ {fb : FlatBuffers} (laws : FlatBuffersLaws fb) where
  open laws use {object, pending, contents}

  -- A string or a vector was created, or the pointer is null and the builder as it was.
  record Created (x : List ℕ → Obj) (s : Option (List ℕ)) (b : fb.Builder) (made : ℕ × fb.Builder)
      : Type 0 where
    closed : pending made.1 ≡ none
    points : Points (object made.1) made.0 x s
    kept : (q : ℕ) (y : Obj) → object b q ≡ some y → object made.1 q ≡ some y

  create_string-Created :
      (s : Option (List ℕ)) (b : fb.Builder)
      → pending b ≡ none
      → Created text s b (or_null fb fb.create_string s b)
  create_string-Created none b idle = record { closed = idle; points = refl; kept = λ q y e. e }
  create_string-Created (some s) b idle =
      let st = laws.create_string_stores s b idle in
      record {
        closed = st.closed;
        points = (st.positive, Stores-new laws st);
        kept = λ q y. Stores-keeps laws q y st;
      }

  create_vector-Created :
      (s : Option (List ℕ)) (b : fb.Builder)
      → pending b ≡ none
      → Created blob s b (or_null fb fb.create_vector s b)
  create_vector-Created none b idle = record { closed = idle; points = refl; kept = λ q y e. e }
  create_vector-Created (some s) b idle =
      let st = laws.create_vector_stores s b idle in
      record {
        closed = st.closed;
        points = (st.positive, Stores-new laws st);
        kept = λ q y. Stores-keeps laws q y st;
      }

  Points-kept :
      (at at' : ℕ → Option Obj) (o : ℕ) (x : List ℕ → Obj) (s : Option (List ℕ))
      → ((q : ℕ) (y : Obj) → at q ≡ some y → at' q ≡ some y)
      → Points at o x s
      → Points at' o x s
  Points-kept at at' o x none keep h = h
  Points-kept at at' o x (some s) keep (h, e) = (h, keep o (x s) e)

  -- A receiver of a message that CreateRpcMessageDirect built, with a type below 256, an id below 2 ^ 32 and in a
  -- buffer of less than 2 ^ 31 - 1 bytes, accepts it and reads back its type and id, and its method and
  -- payload, where a null pointer given is a null pointer read.
  pub create_rpc_message_direct-Holds :
      (ty i : ℕ) (name load : Option (List ℕ))
      → ty < 256
      → i < 2 ^ 32
      → length (buffer_of fb (create_rpc_message_direct fb ty i name load fb.new_builder))
        < max_size
      → Holds fb
          (buffer_of fb (create_rpc_message_direct fb ty i name load fb.new_builder))
          ty
          i
          name
          load
  unfolding create_rpc_message_direct
  create_rpc_message_direct-Holds ty i name load ty_fits i_fits small =
      let c = create_string-Created name fb.new_builder laws.new_builder_pending in
      let d = create_vector-Created load _ c.closed in
      let kept = create_rpc_message-object laws ty i _ _ _ ty_fits i_fits d.closed in
      let named = Points-kept _ _ _ text name kept (Points-kept _ _ _ text name d.kept c.points) in
      let loaded = Points-kept _ _ _ blob load kept d.points in
      Holds-of_contents laws ty i name load _ _
        (create_rpc_message-resolve laws ty i _ _ _ ty_fits i_fits d.closed
          ∙ ap some (resolve-direct _ ty i _ _ name load named loaded))
        (direct_contents-Fields ty i name load) small
