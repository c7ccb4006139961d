-- ===== src/Life/Keeping.antt =====
-- What a class must do for its objects to keep their duty over their lives.
use zmq_ipc.Prelude.{ℕ, ◌<◌, ◌≡◌, refl, sym, subst, Option, some, List, [], ◌∷◌, ◌∙◌, ap, nat_eq}
use zmq_ipc.FlatBuffers.{FlatBuffers}
use zmq_ipc.Nng.Aios.{live, count}
use zmq_ipc.Peer.State.{Peer, EndsIn, EndsIn-done}
use zmq_ipc.Peer.Receive.{Received, receive}
use zmq_ipc.Peer.Call.Callbacks.{OnlyCalls, receive-WithSound}
use zmq_ipc.Peer.Pending.Laws.{IsSound}
use zmq_ipc.Life.{
  PeerClass, Living, at_rest, left, Step, starts, begins_stop, stops_worker, ends_stop, receives,
  moves, Run, here, later,
}
use zmq_ipc.Life
use zmq_ipc.Life.Duty.{Duty, Move-aio_list, Move-Duty, Tallied, callback-Tallied}

-- What a class must do: keep this from its start to its end, and `stop` as the steps of its loop and what follows.
pub record PeerClassLaws {fb : FlatBuffers} (c : PeerClass fb) : Type 1 where
  pub peer-with_peer : (t : Peer) (w : c.Object) → c.peer (c.with_peer t w) ≡ t
  pub with_peer-peer : (w : c.Object) → c.with_peer (c.peer w) w ≡ w
  pub with_peer-with_peer :
      (s t : Peer) (w : c.Object) → c.with_peer t (c.with_peer s w) ≡ c.with_peer t w
  pub start-Duty :
      (e : c.Starting) (w : c.Object)
      → Duty (c.peer w).aio_list (c.peer w)
      → Duty (c.peer (c.start e w).1).aio_list (c.peer (c.start e w).1)
  pub stop_none : (s : Peer) → c.stop_workers [] s ≡ s
  pub stop_more :
      (a : ℕ) (l : List ℕ) (s : Peer)
      → c.stop_workers (a ∷ l) s ≡ c.stop_workers l (c.stop_workers (a ∷ []) s)
  pub stop_one-Duty :
      (a : ℕ) (l : List ℕ) (s : Peer) → Duty (a ∷ l) s → Duty l (c.stop_workers (a ∷ []) s)
  pub end_stop-Duty : (w : c.Object) → Duty [] (c.peer w) → Duty [] (c.peer (c.end_stop w))
  pub end_stop-aio_list : (w : c.Object) → (c.peer (c.end_stop w)).aio_list ≡ []
  pub stop-end_stop :
      (w : c.Object)
      → c.stop w ≡ c.end_stop (c.with_peer (c.stop_workers (c.peer w).aio_list (c.peer w)) w)
  pub only : OnlyCalls (c.reply)
  pub register_method-Duty :
      (verify : fb.Table → fb.Verifier → Option fb.Verifier) (name : List ℕ)
      (handler : fb.Table → fb.Builder → ℕ × fb.Builder) (l : List ℕ) (s : Peer)
      → Duty l s
      → Duty l (c.register_method verify name handler s)
  pub register_method-aio_list :
      (verify : fb.Table → fb.Verifier → Option fb.Verifier) (name : List ℕ)
      (handler : fb.Table → fb.Builder → ℕ × fb.Builder) (s : Peer)
      → (c.register_method verify name handler s).aio_list ≡ s.aio_list

module _ {fb : FlatBuffers} {c : PeerClass fb} (laws : PeerClassLaws c) where
  receive-Tallied :
      (e : Received) (l : List ℕ) (s : Peer)
      → 0 < count e.aio l
      → Duty l s
      → EndsIn (λ t. IsSound t × Tallied l s.aio_list t) (receive fb (c.reply) e s)
  receive-Tallied e l s has h =
      receive-WithSound (Tallied l s.aio_list) (λ i p r t k. k) fb (c.reply) (laws.only) e
        (callback-Tallied e.aio l s.aio_list has) s (h.sound, (h.tallies, refl))

  -- The allocated aios are those that are to be stopped yet.
  abbrev pub OnDuty : Living c → Type 0
  OnDuty w = Duty (left w.stopping (c.peer w.object).aio_list) (c.peer w.object)

  changed :
      (t : Peer) (w : Living c)
      → t.aio_list ≡ (c.peer w.object).aio_list
      → Duty (left w.stopping (c.peer w.object).aio_list) t
      → OnDuty (Life.with_peer c t w)
  changed t w same h =
      subst (λ s. Duty (left w.stopping s.aio_list) s) (sym (laws.peer-with_peer t w.object))
        (subst (λ k. Duty (left w.stopping k) t) (sym same) h)

  Step-Duty : {w v : Living c} → Step c w v → OnDuty w → OnDuty v
  Step-Duty {w} (starts e idle) h = laws.start-Duty e w.object (rw idle at h)
  Step-Duty {w} (begins_stop idle) h = rw idle at h
  Step-Duty {w} (stops_worker a rest now) h =
      subst (Duty rest) (sym (laws.peer-with_peer _ w.object))
        (laws.stop_one-Duty a rest (c.peer w.object) (rw now at h))
  Step-Duty {w} (ends_stop now) h =
      subst (λ l. Duty l (c.peer (c.end_stop w.object))) (sym (laws.end_stop-aio_list w.object))
        (laws.end_stop-Duty w.object (rw now at h))
  Step-Duty {w} (receives e {t} has ends) h =
      let (sound, (tallies, same)) =
        EndsIn-done (λ u. IsSound u × Tallied _ _ u) _ t
          (receive-Tallied e _ (c.peer w.object) has h) ends in
      changed t w same (record { sound = sound; tallies = tallies })
  Step-Duty {w} (moves a {t} mv) h = changed t w (Move-aio_list mv) (Move-Duty _ mv h)
  Step-Duty {w} (Step.registers verify name handler) h =
      changed _ w (laws.register_method-aio_list verify name handler (c.peer w.object))
        (laws.register_method-Duty verify name handler _ (c.peer w.object) h)

  pub Run-Duty : {w v : Living c} → Run c w v → OnDuty w → OnDuty v
  Run-Duty here h = h
  Run-Duty (later r s) h = Step-Duty s (Run-Duty r h)

  -- a `stop` whose loop has still to stop the aios of `l`
  abbrev stopping_at : List ℕ → PeerClass.Object c → Living c
  stopping_at l v = record { object = v; stopping = some l }

  -- A loop that nobody interrupts does what `stop_workers` does.
  loop-Run :
      {w : Living c} (l : List ℕ) (v : PeerClass.Object c)
      → Run c w (stopping_at l v)
      → Run c w (stopping_at [] (c.with_peer (c.stop_workers l (c.peer v)) v))
  loop-Run {w} [] v r =
      subst (λ o. Run c w (stopping_at [] o))
        (sym (ap (λ s. c.with_peer s v) (laws.stop_none (c.peer v)) ∙ laws.with_peer-peer v)) r
  loop-Run {w} (a ∷ l) v r =
      let s = c.stop_workers (a ∷ []) (c.peer v) in
      let u = c.with_peer s v in
      subst (λ o. Run c w (stopping_at [] o))
        (ap (λ t. c.with_peer (c.stop_workers l t) u) (laws.peer-with_peer s v)
          ∙ (laws.with_peer-with_peer s (c.stop_workers l s) v
              ∙ ap (λ t. c.with_peer t v) (sym (laws.stop_more a l (c.peer v)))))
        (loop-Run l u (later r (stops_worker a l refl)))

  -- `stop` itself is such a run.
  pub stop-Run :
      {w : Living c} (v : PeerClass.Object c) → Run c w (at_rest v) → Run c w (at_rest (c.stop v))
  stop-Run {w} v r =
      subst (λ o. Run c w (at_rest o)) (sym (laws.stop-end_stop v))
        (later (loop-Run (c.peer v).aio_list v (later r (begins_stop refl))) (ends_stop refl))

  -- The object at its end, when its destructor has run `stop`: every aio has been freed.
  pub Run-ends :
      {w : Living c} (a : ℕ) (v : PeerClass.Object c)
      → Run c w (at_rest v)
      → OnDuty w
      → live a (c.peer (c.stop v)).calls ≡ some 0
  unfolding count
  Run-ends a v r h =
      let none_left : (c.peer (c.stop v)).aio_list ≡ [] =
        ap (λ o. (c.peer o).aio_list) (laws.stop-end_stop v) ∙ laws.end_stop-aio_list _ in
      let tallied = (Run-Duty (stop-Run v r) h).tallies a in rw none_left at tallied
