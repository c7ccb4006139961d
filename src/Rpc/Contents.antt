-- ===== src/Rpc/Contents.antt =====
-- What a message that CreateRpcMessage builds holds.
use zmq_ipc.Prelude.{
  ℕ, ◌^◌, ◌<◌, ◌≡◌, ap, ◌∙◌, Option, none, some, List, [], ◌∷◌, arith, ◌==◌, nat_eq, if◌then◌else◌,
}
use zmq_ipc.Prelude.Dict.{Dict}
use zmq_ipc.FlatBuffers.{
  FlatBuffers, FlatBuffersLaws, Slot, scalar, ref, Obj, text, blob, Content, number, string, vector,
  resolve, Stores,
}
use zmq_ipc.Rpc.{vt_type, vt_id, vt_method, vt_payload, create_rpc_message}

abbrev pub unless_zero {ℓ} : {A : Type ℓ} → ℕ → A → List A → List A
unless_zero x a l = if x == 0 then l else a ∷ l

-- The fields given to the table, the last one first.
abbrev pub message_fields : ℕ → ℕ → ℕ → ℕ → Dict ℕ Slot
message_fields ty i m p =
    unless_zero ty (vt_type, scalar 1 ty)
      (unless_zero i (vt_id, scalar 4 i)
        (unless_zero m (vt_method, ref m) (unless_zero p (vt_payload, ref p) [])))

-- Type and id are left out when they have their default.
unfoldable pub message_contents : ℕ → ℕ → List ℕ → List ℕ → Dict ℕ Content
message_contents ty i name load =
    unless_zero ty (vt_type, number 1 ty)
      (unless_zero i (vt_id, number 4 i)
        ((vt_method, string name) ∷ (vt_payload, vector load) ∷ []))

resolve-message_fields :
    (at : ℕ → Option Obj) (ty i m p : ℕ) (name load : List ℕ)
    → 0 < m
    → 0 < p
    → at m ≡ some (text name)
    → at p ≡ some (blob load)
    → resolve at (message_fields ty i m p) ≡ message_contents ty i name load
unfolding message_contents
resolve-message_fields at ty i m p name load hm hp em ep = ground arith

module _ {fb : FlatBuffers} (laws : FlatBuffersLaws fb) where
  open laws use {object, pending, contents}

  -- An object that was there is still there when another one is stored.
  pub Stores-keeps :
      {b b' : fb.Builder} {o : ℕ} {x : Obj} (p : ℕ) (y : Obj)
      → Stores object pending b b' o x
      → object b p ≡ some y
      → object b' p ≡ some y
  Stores-keeps p y st e = ground (arith, st.stored p, st.fresh)

  pub Stores-new :
      {b b' : fb.Builder} {o : ℕ} {x : Obj} → Stores object pending b b' o x → object b' o ≡ some x
  Stores-new {o} st = rw (st.stored o) (ground arith)

  module _ (ty i m p : ℕ) (b : fb.Builder) (ty_fits : ty < 256) (i_fits : i < 2 ^ 32)
      (idle : pending b ≡ none) where
    given : fb.Builder
    given = fb.add_element 1 vt_type ty 0 (
        fb.add_element 4 vt_id i 0
          (fb.add_offset vt_method m (fb.add_offset vt_payload p (fb.start_table b).1)))

    given-pending : pending given ≡ some ((fb.start_table b).0, message_fields ty i m p)
    unfolding given
    given-pending = laws.add_element_pending _ _ _ _ _ _ _ ty_fits (
        laws.add_element_pending _ _ _ _ _ _ _ i_fits (
          laws.add_offset_pending _ _ _ _ _
            (laws.add_offset_pending _ _ _ _ _ (laws.start_table_pending b idle))))

    given-object : (q : ℕ) → object given q ≡ object b q
    unfolding given
    given-object q =
        laws.add_element_object _ _ _ _ _ q
        ∙ laws.add_element_object _ _ _ _ _ q
        ∙ laws.add_offset_object _ _ _ q
        ∙ laws.add_offset_object _ _ _ q
        ∙ laws.start_table_object b q

    -- What the builder held before the table, it still holds.
    pub create_rpc_message-object :
        (q : ℕ) (x : Obj)
        → object b q ≡ some x
        → object (create_rpc_message fb ty i m p b).1 q ≡ some x
    unfolding create_rpc_message given
    create_rpc_message-object q x e =
        Stores-keeps q x (laws.end_table_stores _ given _ given-pending) (given-object q ∙ e)

    -- The finished buffer holds the fields that were given, each with what it points to.
    pub create_rpc_message-resolve :
        contents (
          fb.get_buffer
            (fb.finish (create_rpc_message fb ty i m p b).0 (create_rpc_message fb ty i m p b).1))
        ≡ some (resolve (object (create_rpc_message fb ty i m p b).1) (message_fields ty i m p))
    unfolding create_rpc_message given
    create_rpc_message-resolve =
        let st = laws.end_table_stores _ given _ given-pending in
        laws.finish_contents _ _ _ st.closed (Stores-new st)

  module _ (ty i m p : ℕ) (name load : List ℕ) (b : fb.Builder) (ty_fits : ty < 256)
      (i_fits : i < 2 ^ 32) (idle : pending b ≡ none) (has_name : object b m ≡ some (text name))
      (m_pos : 0 < m) (has_load : object b p ≡ some (blob load)) (p_pos : 0 < p) where
    -- The finished buffer holds the type, the id, the method's name and the payload.
    pub create_rpc_message-contents :
        contents (
          fb.get_buffer
            (fb.finish (create_rpc_message fb ty i m p b).0 (create_rpc_message fb ty i m p b).1))
        ≡ some (message_contents ty i name load)
    create_rpc_message-contents =
        create_rpc_message-resolve ty i m p b ty_fits i_fits idle
        ∙ ap some (
            resolve-message_fields _ ty i m p name load m_pos p_pos
              (create_rpc_message-object ty i m p b ty_fits i_fits idle m _ has_name)
              (create_rpc_message-object ty i m p b ty_fits i_fits idle p _ has_load))
