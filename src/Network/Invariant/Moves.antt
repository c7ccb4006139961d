-- ===== src/Network/Invariant/Moves.antt =====
-- A move of one caller keeps the invariant of its side.
use zmq_ipc.Prelude.{
  ℕ, suc, ◌<◌, ◌≡◌, ◌≢◌, refl, sym, ap, ◌∙◌, ◌⊎◌, inl, inr, Option, none, some, List, arith, nat_eq,
  bytes_eq,
}
use zmq_ipc.Prelude.Dict.{find}
use zmq_ipc.Prelude.Family.{set_at, set_at-All, set_at-same}
use zmq_ipc.FlatBuffers.{FlatBuffers}
use zmq_ipc.Nng.{msg_alloc}
use zmq_ipc.Nng.Sent.{Sent, Sent-quiet, Sent-send}
use zmq_ipc.Peer.State.{Peer}
use zmq_ipc.Peer.Messages.{request_buffer}
use zmq_ipc.Peer.Pending.{generate_request_id, make_promise, register_pending, erase_pending}
use zmq_ipc.Network.{
  Offers, Ask, Caller, Move, takes, allocates, has_no_memory, registers, sends, fails, wakes,
  expires, erases, Half,
}
use zmq_ipc.Network.Callers.{id_of, Ready, Ready-keeps, Move-IsSound, Move-Tracks, Move-Ready}
use zmq_ipc.Network.Invariant.Defs.{IsResult, Numbered, IsRequest, IsResponse, ids_of, HalfInv}

module _ {fb : FlatBuffers} {a : Ask} where
  -- A move keeps the caller's id, or gives it the next one.
  Move-next :
      {s : Peer} {c d : Caller} {t : Peer}
      → Move fb a c s d t
      → ((id_of d ≡ id_of c) × (t.next_request_id ≡ s.next_request_id))
        ⊎ ((id_of c ≡ none)
            × (id_of d ≡ some s.next_request_id)
            × (t.next_request_id ≡ suc s.next_request_id))
  unfolding id_of generate_request_id register_pending make_promise erase_pending
  Move-next (takes h) = inr (refl, refl, omega arith)
  Move-next (allocates m) = inl (refl, refl)
  Move-next (has_no_memory m rv h) = inl (refl, refl)
  Move-next registers = inl (refl, refl)
  Move-next sends = inl (refl, refl)
  Move-next (fails rv h) = inl (refl, refl)
  Move-next (wakes e) = inl (refl, refl)
  Move-next (expires e) = inl (refl, refl)
  Move-next erases = inl (refl, refl)

  -- All that a move sends is the caller's request.
  Move-Sent :
      (body : List ℕ) {s : Peer} {c d : Caller} {t : Peer}
      → Move fb a c s d t
      → Sent body t.calls
      → Sent body s.calls
        ⊎ ((i : ℕ) × (id_of d ≡ some i) × (body ≡ request_buffer fb i a.method_name a.req_buf))
  unfolding id_of generate_request_id register_pending make_promise erase_pending
  Move-Sent body (takes h) q = inl q
  Move-Sent body (allocates m) q = inl (Sent-quiet body (msg_alloc m 0) _ refl q)
  Move-Sent body (has_no_memory m rv h) q = inl (Sent-quiet body (msg_alloc m rv) _ refl q)
  Move-Sent body registers q = inl q
  Move-Sent body (sends {i} {m}) q = elim (Sent-send m 0 body _ _ q) [
    | inl e ↦ inr (i, refl, e)
    | inr old ↦ inl old
  ]
  Move-Sent body (fails {i} {m} rv h) q = elim (Sent-send m rv body _ _ q) [
    | inl e ↦ inr (i, refl, e)
    | inr old ↦ inl old
  ]
  Move-Sent body (wakes e) q = inl q
  Move-Sent body (expires e) q = inl q
  Move-Sent body erases q = inl q

  Move-persists :
      {s : Peer} {c d : Caller} {t : Peer}
      → Move fb a c s d t
      → (i : ℕ) → id_of c ≡ some i
      → id_of d ≡ some i
  Move-persists mv i e = elim (Move-next mv) [ inl (same, _) ↦ same ∙ e | inr (was, _, _) ↦ cc ]

module _ {fb : FlatBuffers} {a : Ask} where
  Move-method_map :
      {s : Peer} {c d : Caller} {t : Peer} → Move fb a c s d t → t.method_map ≡ s.method_map
  unfolding generate_request_id register_pending make_promise erase_pending
  Move-method_map (takes h) = refl
  Move-method_map (allocates m) = refl
  Move-method_map (has_no_memory m rv h) = refl
  Move-method_map registers = refl
  Move-method_map sends = refl
  Move-method_map (fails rv h) = refl
  Move-method_map (wakes e) = refl
  Move-method_map (expires e) = refl
  Move-method_map erases = refl

module _ {fb : FlatBuffers} {methods theirs : Offers} {asks their_asks : ℕ → Ask} where
  -- A side that sees more ids of the other side's callers than before.
  pub HalfInv-grow :
      {old new : ℕ → Option ℕ} {h : Half}
      → ((j i : ℕ) → old j ≡ some i → new j ≡ some i)
      → HalfInv fb methods theirs asks their_asks old h
      → HalfInv fb methods theirs asks their_asks new h
  HalfInv-grow keeps inv = record {
    sound = inv.sound;
    ready = inv.ready;
    ids = inv.ids;
    sends = λ body q. elim (inv.sends body q) [
      | inl asked ↦ inl asked
      | inr (j, i, h, e, f, b) ↦ inr (j, i, h, keeps j i e, f, b)
    ];
    served = inv.served;
  }

module _ {fb : FlatBuffers} {methods theirs : Offers} {asks their_asks : ℕ → Ask}
    {their_ids : ℕ → Option ℕ} {w : Half}
    (inv : HalfInv fb methods theirs asks their_asks their_ids w) (k : ℕ) {d : Caller} {t : Peer}
    (mv : Move fb (asks k) (w.caller k) w.peer d t) where
  abbrev ids : ℕ → Option ℕ
  ids j = id_of (set_at w.caller k d j)

  pub persists : (j i : ℕ) → ids_of w j ≡ some i → ids j ≡ some i
  persists =
      set_at-All w.caller k d (λ j c. (i : ℕ) → ids_of w j ≡ some i → id_of c ≡ some i)
        (Move-persists mv) (λ j ne i e. e)

  -- An id of after the move is the next one, or was there before.
  abbrev WasTaken : ℕ → Caller → Type 0
  WasTaken j c =
      (i : ℕ)
      → id_of c ≡ some i
      → ((ids_of w j ≡ some i) × (i < t.next_request_id))
        ⊎ ((j ≡ k) × (i ≡ w.peer.next_request_id) × (i < t.next_request_id))

  was_taken : (j : ℕ) → WasTaken j (set_at w.caller k d j)
  was_taken = elim (Move-next mv) [
    | inl (same, next) ↦
        set_at-All w.caller k d WasTaken
          (λ i e. let old = sym same ∙ e in inl (old, omega (arith, next, inv.ids.taken k i old)))
          (λ j ne i e. inl (e, omega (arith, next, inv.ids.taken j i e)))
    | inr (was, new, next) ↦
        set_at-All w.caller k d WasTaken
          (λ i e. let at : i ≡ w.peer.next_request_id = cc in inr (refl, at, omega (arith, next)))
          (λ j ne i e. inl (e, omega (arith, next, inv.ids.taken j i e)))
  ]

  Move-Numbered : Numbered ids t.next_request_id
  Move-Numbered = record {
    taken = λ j i e. elim (was_taken j i e) [ inl (_, lt) ↦ lt | inr (_, _, lt) ↦ lt ];
    apart = λ j l i e f. elim (was_taken j i e) [
      | inl (old, _) ↦ elim (was_taken l i f) [
        | inl (old', _) ↦ inv.ids.apart j l i old old'
        | inr (_, at, _) ↦ absurd (omega (arith, inv.ids.taken j i old))
      ]
      | inr (q, at, _) ↦ elim (was_taken l i f) [
        | inl (old', _) ↦ absurd (omega (arith, inv.ids.taken l i old'))
        | inr (q', _, _) ↦ q ∙ sym q'
      ]
    ];
  }

  other-Ready : (j : ℕ) → k ≢ j → Ready (IsResult theirs (asks j)) (w.caller j) t
  other-Ready j ne =
      Ready-keeps _ (w.caller j) w.peer t
        (λ i p e. Move-Tracks i p _ mv (λ f. ne (inv.ids.apart k j i f e))) (inv.ready j)

  moved_sends :
      (body : List ℕ)
      → Sent body t.calls
      → IsRequest fb asks ids body ⊎ IsResponse fb methods their_asks their_ids body
  moved_sends body q = elim (Move-Sent body mv q) [
    | inl old ↦ elim (inv.sends body old) [
      | inl (j, i, e, b) ↦ inl (j, i, persists j i e, b)
      | inr told ↦ inr told
    ]
    | inr (i, e, b) ↦ inl (k, i, rw (set_at-same w.caller k d) e, b)
  ]

  pub Move-HalfInv :
      HalfInv fb methods theirs asks their_asks their_ids
        (record { caller = set_at w.caller k d; peer = t; armed = w.armed })
  Move-HalfInv = record {
    sound = Move-IsSound mv inv.sound;
    ready =
        set_at-All w.caller k d (λ j c. Ready (IsResult theirs (asks j)) c t)
          (Move-Ready _ mv inv.sound (inv.ready k)) other-Ready;
    ids = Move-Numbered;
    sends = moved_sends;
    served = λ name g f. inv.served name g (ap (find name) (sym (Move-method_map mv)) ∙ f);
  }
