-- ===== src/Dial/Lifetime.antt =====
-- The life of an object of src/NngUdsRpcPeerDial.cpp.
use zmq_ipc.Prelude.{
  ℕ, zero, suc, ◌+◌, ◌≡◌, refl, Bool, Bool-cases, inl, inr, List, [], nat_beq, some,
}
use zmq_ipc.FlatBuffers.{FlatBuffers}
use zmq_ipc.Nng.{close, pair0_open, dial, aio_alloc}
use zmq_ipc.Nng.Aios.{live}
use zmq_ipc.Peer.State.{Peer, called}
use zmq_ipc.Peer.Pending.Laws.{IsSound, IsSound-called}
use zmq_ipc.Life.{PeerClass, at_rest, Run}
use zmq_ipc.Life.Duty.{stopped-Duty, Duty, new-Duty, IsSound-with}
use zmq_ipc.Life.Keeping.{PeerClassLaws, Run-Duty, Run-ends}
use zmq_ipc.Dial.{
  Dial, Starting, start_worker, start_workers, stop_workers, end_stop, set_up, construct, start,
  stop, destroy, reply, register_method,
}
use zmq_ipc.Dial.Workers.{start-Listed, connected}
use zmq_ipc.Dial.Remote.{reply-OnlyCalls}

abbrev pub dial_class : (fb : FlatBuffers) → Type 0 → PeerClass fb
dial_class fb A = record {
  Object = Dial A;
  Starting = Starting;
  peer = λ d. d.peer;
  with_peer = λ s d. record d { peer = s };
  start = start;
  stop_workers = stop_workers;
  end_stop = end_stop;
  stop = stop;
  reply = reply fb;
  register_method = register_method fb;
}

start_worker-IsSound : (e : Starting) (i : ℕ) (s : Peer) → IsSound s → IsSound (start_worker e i s)
unfolding start_worker
start_worker-IsSound e i s h =
    let t = called (aio_alloc (e.aio i) (e.allocating i)) s in
    elim (Bool-cases (nat_beq (e.allocating i) 0)) [
      | inl q ↦ rw q (IsSound-called _ _ (IsSound-with _ _ t (IsSound-called _ s h)))
      | inr q ↦ rw q (IsSound-called _ s h)
    ]

start_workers-IsSound :
    (e : Starting) (n i : ℕ) (s : Peer) → IsSound s → IsSound (start_workers e n i s)
unfolding start_workers
start_workers-IsSound e zero i s h = h
start_workers-IsSound e (suc n) i s h =
    start_workers-IsSound e n (i + 1) _ (start_worker-IsSound e i s h)

set_up-IsSound : (s : Peer) → IsSound s → IsSound (set_up s)
unfolding set_up
set_up-IsSound s h =
    IsSound-called _ _ (IsSound-called _ _ (IsSound-called _ _ (IsSound-called _ s h)))

module _ {A : Type 0} where
  start-IsSound : (e : Starting) (d : Dial A) → IsSound d.peer → IsSound (start e d).1.peer
  unfolding start
  start-IsSound e d h =
      let opened = IsSound-called (pair0_open e.opening) d.peer h in
      let dialled = IsSound-called (dial d.peer.address e.connecting) _ (set_up-IsSound _ opened) in
      elim (Bool-cases (nat_beq e.opening 0)) [
        | inl q ↦ rw q (elim (Bool-cases (nat_beq e.connecting 0)) [
          | inl r ↦ rw r (start_workers-IsSound e d.peer.num_workers 0 (connected e d) dialled)
          | inr r ↦ rw r (IsSound-called close (connected e d) dialled)
        ])
        | inr q ↦ rw q opened
      ]

  end_stop-Duty : (d : Dial A) → Duty [] d.peer → Duty [] (end_stop d).peer
  unfolding live
  end_stop-Duty d h = record {
    sound = IsSound-called close _ (IsSound-with [] [] d.peer h.sound);
    tallies = λ a. rw (h.tallies a) refl;
  }

pub dial_class-laws : (fb : FlatBuffers) (A : Type 0) → PeerClassLaws (dial_class fb A)
unfolding register_method stop stop_workers
dial_class-laws fb A = record {
  peer-with_peer = λ t w. refl;
  with_peer-peer = λ w. refl;
  with_peer-with_peer = λ s t w. refl;
  start-Duty = λ e d h. record {
    sound = start-IsSound e d h.sound;
    tallies = λ a. start-Listed a 0 e d (h.tallies a);
  };
  stop_none = λ s. refl;
  stop_more = λ a l s. refl;
  stop_one-Duty = stopped-Duty;
  end_stop-Duty = end_stop-Duty;
  end_stop-aio_list = λ w. refl;
  stop-end_stop = λ w. refl;
  only = reply-OnlyCalls fb;
  register_method-Duty = λ verify name handler l s h. record {
    sound = IsSound-with s.aio_list _ s h.sound;
    tallies = h.tallies;
  };
  register_method-aio_list = λ verify name handler s. refl;
}

pub construct-Duty :
    (A : Type 0) (addr : List ℕ) (workers : ℕ) (debug_mode : Bool)
    → Duty [] (construct {A = A} addr workers debug_mode).peer
unfolding construct
construct-Duty A addr workers debug_mode =
    new-Duty (construct {A = A} addr workers debug_mode).peer refl refl refl refl

-- Whatever a dialling peer goes through, starts that fail and starts after a stop included, from its constructor to its
-- destructor: the table of pending requests is sound when no stop runs, and in the end every aio has been
-- freed as often as it was allocated, each time after it was stopped and with no receive started on it
-- since, and none was used while it was not allocated. Callbacks run only for aios of the peer that are
-- not stopped yet, but also between the rounds of the loop of a stop.
pub dial_life-ends :
    {fb : FlatBuffers} {A : Type 0} (addr : List ℕ) (workers : ℕ) (debug_mode : Bool) {d : Dial A}
    → Run (dial_class fb A) (at_rest (construct addr workers debug_mode)) (at_rest d)
    → IsSound d.peer × ((a : ℕ) → live a (destroy d).peer.calls ≡ some 0)
unfolding construct destroy
dial_life-ends {fb} {A} addr workers debug_mode {d} r = (
  (Run-Duty (dial_class-laws fb A) r (construct-Duty A addr workers debug_mode)).sound,
  λ a. Run-ends (dial_class-laws fb A) a d r (construct-Duty A addr workers debug_mode),
)
