-- ===== src/Network/Invariant/Messages.antt =====
-- A message that arrives at a side keeps its invariant.
use zmq_ipc.Prelude.{
  ℕ, ◌^◌, ◌<◌, ◌≡◌, refl, sym, ap, subst, ◌∙◌, ◌⊎◌, inl, inr, Bool-cases, Option, Option-cases,
  none, some, List, [], arith, nat_beq, nat_eq, bytes_eq,
}
use zmq_ipc.Prelude.Dict.{find}
use zmq_ipc.FlatBuffers.{FlatBuffers, FlatBuffersLaws}
use zmq_ipc.Nng.{recv_aio}
use zmq_ipc.Nng.Sent.{Sent, Sent-quiet}
use zmq_ipc.Rpc.{request, response}
use zmq_ipc.Rpc.RoundTrip.{Carries}
use zmq_ipc.Peer.State.{Peer, HandlerFunc, Outcome, done, called, EndsIn-done}
use zmq_ipc.Peer.Messages.{request_buffer-Carries, response_buffer-Carries}
use zmq_ipc.Peer.Pending.Laws.{IsSound-called}
use zmq_ipc.Peer.Pending.Tracks.{Tracks, Tracks-called}
use zmq_ipc.Peer.Receive.{Received, receive}
use zmq_ipc.Peer.Receive.Branches.{
  taken, finished, receive_of_response, receive_of_request, receive_of_unknown, receive_of_failed,
}
use zmq_ipc.Prelude.{true, false}
use zmq_ipc.Rpc.{verify}
use zmq_ipc.Peer.Receive.Arming.{is_malformed}
use zmq_ipc.Peer.Call.Callbacks.{Answers, receive-Tracks}
use zmq_ipc.Network.{Offers, Ask, Half}
use zmq_ipc.Network.Callers.{Ready, Ready-keeps}
use zmq_ipc.Network.Invariant.Defs.{Replies, IsResult, Fits, IsRequest, IsResponse, ids_of, HalfInv}
use zmq_ipc.Network.Invariant.Settled.{
  done_of_map, finished-Sent, taken-Sent, resolve_pending-Sent, Settled, receive-Settled,
}

module _ {fb : FlatBuffers} (laws : FlatBuffersLaws fb) {methods theirs : Offers}
    {asks their_asks : ℕ → Ask} (fits : Fits fb theirs asks)
    (their_fits : Fits fb methods their_asks) {w v : Half}
    (inv : HalfInv fb methods theirs asks their_asks (ids_of v) w)
    (their_inv : HalfInv fb theirs methods their_asks asks (ids_of w) v)
    (reply : Received → ℕ → List ℕ → List ℕ → Peer → Outcome Peer) (good : Replies fb reply)
    (e : Received) (t : Peer) (ends : receive fb reply e w.peer ≡ done t) where
  own_fits : (k i : ℕ) → ids_of w k ≡ some i → i < 2 ^ 32
  own_fits k i q = omega (arith, inv.ids.taken k i q, inv.sound.id_fits)

  their_id_fits : (k i : ℕ) → ids_of v k ≡ some i → i < 2 ^ 32
  their_id_fits k i q = omega (arith, their_inv.ids.taken k i q, their_inv.sound.id_fits)

  -- What a callback keeps, beside the table: see the invariant.
  record Heard (u : Peer) : Type 0 where
    still_ready : (k : ℕ) → Ready (IsResult theirs (asks k)) (w.caller k) u
    new_sends :
        (body : List ℕ)
        → Sent body u.calls
        → Sent body w.peer.calls ⊎ IsResponse fb methods their_asks (ids_of v) body

  Heard-Inv :
      {left : List ℕ}
      → Heard t
      → HalfInv fb methods theirs asks their_asks
          (ids_of v)
          (record { caller = w.caller; peer = t; armed = left })
  Heard-Inv h =
      let (sound, (next, same)) =
        EndsIn-done (Settled w.peer) _ t (receive-Settled reply good e w.peer inv.sound) ends in
      record {
        sound = sound;
        ready = h.still_ready;
        ids = rw next inv.ids;
        sends = λ body q. elim (h.new_sends body q) [
          | inl old ↦ inv.sends body old
          | inr new ↦ inr new
        ];
        served = λ name g f. inv.served name g (ap (find name) (sym same) ∙ f);
      }

  -- A receive that failed.
  failed-Heard : Heard (called (recv_aio e.aio) w.peer)
  failed-Heard = record {
    still_ready =
        λ k. Ready-keeps _ (w.caller k) w.peer _ (λ i p f. Tracks-called i p _ _ _) (inv.ready k);
    new_sends = λ body q. inl (Sent-quiet body (recv_aio e.aio) w.peer.calls refl q);
  }

  -- A message that is no answer, or the right one, leaves every caller ready.
  arrived-Ready :
      ((k i : ℕ) → ids_of w k ≡ some i → Answers fb i (IsResult theirs (asks k)) e)
      → (k : ℕ) → Ready (IsResult theirs (asks k)) (w.caller k) t
  arrived-Ready answers k =
      let P : Option (List ℕ) → Type 0 = IsResult theirs (asks k) in
      Ready-keeps P (w.caller k) w.peer t
        (λ i p own tr.
          EndsIn-done (Tracks i p P) _ t
            (receive-Tracks fb reply good.only i P p e (answers k i own) w.peer tr) ends)
        (inv.ready k)

  -- The response to caller `k`, whose id no other caller has.
  module _ (k i : ℕ) (h : HandlerFunc) (own : ids_of w k ≡ some i)
      (found : theirs (asks k).method_name h) (ok : e.result ≡ 0)
      (c : Carries fb e.body response i (asks k).method_name (h (asks k).req_buf [])) where
    response-Answers : (j l : ℕ) → ids_of w j ≡ some l → Answers fb l (IsResult theirs (asks j)) e
    response-Answers j l q typed same =
        rw (c.loaded, c.load_bytes)
          (subst (λ n. IsResult theirs (asks n) (some (h (asks k).req_buf [])))
            (inv.ids.apart k j l (own ∙ ap some (sym c.numbered ∙ same)) q) (h, found, refl))

    response-Heard : Heard t
    response-Heard =
        let (u, handed, last) =
          done_of_map (finished e) _ t
            (sym (receive_of_response fb reply e w.peer i _ _ ok c) ∙ ends) in
        record {
          still_ready = arrived-Ready response-Answers;
          new_sends = λ body q. inl (
              taken-Sent e body w.peer (
                resolve_pending-Sent body i _ _ u (IsSound-called _ _ inv.sound) handed
                  (finished-Sent e body u (subst (λ x. Sent body x.calls) (sym last) q))));
        }

  -- A request of the other side's caller `k`.
  module _ (k i : ℕ) (own : ids_of v k ≡ some i) (ok : e.result ≡ 0)
      (c : Carries fb e.body request i (their_asks k).method_name (their_asks k).req_buf) where
    request-Answers : (j l : ℕ) → ids_of w j ≡ some l → Answers fb l (IsResult theirs (asks j)) e
    request-Answers j l q typed same = absurd (ground (arith, c.typed))

    known-Heard :
        (h : HandlerFunc) → find (their_asks k).method_name w.peer.method_map ≡ some h → Heard t
    known-Heard h found =
        let (u, replied, last) =
          done_of_map (finished e) _ t
            (sym (receive_of_request fb reply e w.peer i _ _ h ok c found) ∙ ends) in
        record {
          still_ready = arrived-Ready request-Answers;
          new_sends = λ body q.
              elim (good.sends e i (their_asks k).method_name (h (their_asks k).req_buf []) body
                (taken e w.peer) u replied
                (finished-Sent e body u (subst (λ x. Sent body x.calls) (sym last) q))) [
                  | inl same ↦ inr (k, i, h, own, inv.served _ h found, same)
                  | inr old ↦ inl (taken-Sent e body w.peer old)
                ];
        }

    unknown-Heard : find (their_asks k).method_name w.peer.method_map ≡ none → Heard t
    unknown-Heard missing =
        let last : done (finished e (taken e w.peer)) ≡ done t =
          sym (receive_of_unknown fb reply e w.peer i _ _ ok c missing) ∙ ends in
        record {
          still_ready = arrived-Ready request-Answers;
          new_sends = λ body.
              EndsIn-done
                (λ u.
                  Sent body u.calls
                  → Sent body w.peer.calls ⊎ IsResponse fb methods their_asks (ids_of v) body)
                (done (finished e (taken e w.peer))) t
                (λ q. inl (taken-Sent e body w.peer (finished-Sent e body (taken e w.peer) q)))
                last;
        }

    request-Heard : Heard t
    request-Heard = elim (Option-cases (find (their_asks k).method_name w.peer.method_map)) [
      | inl missing ↦ unknown-Heard missing
      | inr (h, found) ↦ known-Heard h found
    ]

  arrived-Heard :
      e.result ≡ 0
      → IsRequest fb their_asks (ids_of v) e.body ⊎ IsResponse fb theirs asks (ids_of w) e.body
      → Heard t
  arrived-Heard ok (inl (k, i, own, body)) =
      let name : List ℕ = (their_asks k).method_name in
      let load : List ℕ = (their_asks k).req_buf in
      let carries =
        request_buffer-Carries laws i name load (their_id_fits k i own)
          (their_fits.asked k i (their_id_fits k i own)) in
      request-Heard k i own ok (subst (λ b. Carries fb b request i name load) (sym body) carries)
  arrived-Heard ok (inr (k, i, h, own, found, body)) =
      let name : List ℕ = (asks k).method_name in
      let bytes : List ℕ = h (asks k).req_buf [] in
      let carries =
        response_buffer-Carries laws i name bytes (own_fits k i own)
          (fits.told k i h (own_fits k i own) found) in
      response-Heard k i h own found ok
        (subst (λ b. Carries fb b response i name bytes) (sym body) carries)

  -- All messages of the other side pass the verifier.
  arrived-verified :
      IsRequest fb their_asks (ids_of v) e.body ⊎ IsResponse fb theirs asks (ids_of w) e.body
      → fb.verify_buffer (verify fb) (fb.verifier e.body) ≡ true
  arrived-verified (inl (k, i, own, body)) =
      let carries =
        request_buffer-Carries laws i (their_asks k).method_name (their_asks k).req_buf
          (their_id_fits k i own) (their_fits.asked k i (their_id_fits k i own)) in
      rw body carries.verified
  arrived-verified (inr (k, i, h, own, found, body)) =
      let carries =
        response_buffer-Carries laws i (asks k).method_name (h (asks k).req_buf [])
          (own_fits k i own) (fits.told k i h (own_fits k i own) found) in
      rw body carries.verified

  pub receive_well_formed : (e.result ≡ 0 → Sent e.body v.peer.calls) → is_malformed fb e ≡ false
  receive_well_formed arrives = elim (Bool-cases (nat_beq e.result 0)) [
    | inr ko ↦ rw ko refl
    | inl ok ↦
        let z : e.result ≡ 0 = ground arith in
        rw (ok, arrived-verified (their_inv.sends e.body (arrives z))) refl
  ]

  -- Whatever a side is given of what the other side has sent.
  pub receive-HalfInv :
      {left : List ℕ}
      → (e.result ≡ 0 → Sent e.body v.peer.calls)
      → HalfInv fb methods theirs asks their_asks
          (ids_of v)
          (record { caller = w.caller; peer = t; armed = left })
  receive-HalfInv arrives = Heard-Inv (elim (Bool-cases (nat_beq e.result 0)) [
    | inr ko ↦
        EndsIn-done Heard _ t failed-Heard (sym (receive_of_failed fb reply e w.peer ko) ∙ ends)
    | inl ok ↦
        let z : e.result ≡ 0 = ground arith in arrived-Heard z (their_inv.sends e.body (arrives z))
  ])
