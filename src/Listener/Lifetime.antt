-- ===== src/Listener/Lifetime.antt =====
-- The life of an object of src/NngUdsRpcPeerListener.cpp.
use zmq_ipc.Prelude.{ℕ, zero, suc, ◌+◌, ◌≡◌, refl, Bool-cases, inl, inr, List, [], nat_beq, some}
use zmq_ipc.FlatBuffers.{FlatBuffers}
use zmq_ipc.Nng.{close, pair0_open, listen, aio_alloc}
use zmq_ipc.Nng.Aios.{live}
use zmq_ipc.Peer.State.{Peer, called}
use zmq_ipc.Peer.Workers.{with_worker}
use zmq_ipc.Peer.Pending.Laws.{IsSound, IsSound-called}
use zmq_ipc.Life.{PeerClass, at_rest, Run}
use zmq_ipc.Life.Duty.{stopped-Duty, Duty, new-Duty, IsSound-with}
use zmq_ipc.Life.Keeping.{PeerClassLaws, Run-Duty, Run-ends}
use zmq_ipc.Listener.{
  Listener, Starting, start_workers, stop_workers, end_stop, construct, start, stop, destroy, reply,
  register_method,
}
use zmq_ipc.Listener.Workers.{start-Listed}
use zmq_ipc.Listener.Remote.{reply-OnlyCalls}

abbrev pub listener_class : (fb : FlatBuffers) → PeerClass fb
listener_class fb = record {
  Object = Listener;
  Starting = Starting;
  peer = λ s. s;
  with_peer = λ t s. t;
  start = start;
  stop_workers = stop_workers;
  end_stop = end_stop;
  stop = stop;
  reply = reply fb;
  register_method = register_method fb;
}

with_worker-IsSound : (b rv : ℕ) (s : Peer) → IsSound s → IsSound (with_worker b rv s)
with_worker-IsSound b rv s h =
    IsSound-called _ _
      (IsSound-with _ s.method_map (called (aio_alloc b rv) s) (IsSound-called _ s h))

start_workers-IsSound :
    (e : Starting) (n i : ℕ) (s : Peer) → IsSound s → IsSound (start_workers e n i s).1
unfolding start_workers
start_workers-IsSound e zero i s h = h
start_workers-IsSound e (suc n) i s h = elim (Bool-cases (nat_beq (e.allocating i) 0)) [
  | inl q ↦ rw q (
      start_workers-IsSound e n (i + 1) (with_worker (e.aio i) (e.allocating i) s)
        (with_worker-IsSound (e.aio i) (e.allocating i) s h))
  | inr q ↦ rw q (IsSound-called _ s h)
]

start-IsSound : (e : Starting) (s : Peer) → IsSound s → IsSound (start e s).1
unfolding start
start-IsSound e s h =
    let opened = IsSound-called (pair0_open e.opening) s h in
    let bound = IsSound-called (listen s.address e.binding) _ opened in
    elim (Bool-cases (nat_beq e.opening 0)) [
      | inl q ↦ rw q (elim (Bool-cases (nat_beq e.binding 0)) [
        | inl r ↦ rw r (start_workers-IsSound e s.num_workers 0 _ bound)
        | inr r ↦ rw r (IsSound-called close _ bound)
      ])
      | inr q ↦ rw q opened
    ]

end_stop-Duty : (s : Peer) → Duty [] s → Duty [] (end_stop s)
unfolding live
end_stop-Duty s h = record {
  sound = IsSound-called close _ (IsSound-with [] s.method_map s h.sound);
  tallies = λ a. rw (h.tallies a) refl;
}

pub listener_class-laws : (fb : FlatBuffers) → PeerClassLaws (listener_class fb)
unfolding register_method stop stop_workers
listener_class-laws fb = record {
  peer-with_peer = λ t w. refl;
  with_peer-peer = λ w. refl;
  with_peer-with_peer = λ s t w. refl;
  start-Duty = λ e s h. record {
    sound = start-IsSound e s h.sound;
    tallies = λ a. start-Listed a e 0 s (h.tallies a);
  };
  stop_none = λ s. refl;
  stop_more = λ a l s. refl;
  stop_one-Duty = stopped-Duty;
  end_stop-Duty = end_stop-Duty;
  end_stop-aio_list = λ w. refl;
  stop-end_stop = λ w. refl;
  only = reply-OnlyCalls fb;
  register_method-Duty = λ verify name handler l s h. record {
    sound = IsSound-with s.aio_list _ s h.sound;
    tallies = h.tallies;
  };
  register_method-aio_list = λ verify name handler s. refl;
}

-- Whatever a listening peer goes through, starts that fail in the middle of the workers and starts after a stop
-- included, from its constructor to its destructor: the table of pending requests is sound when no stop
-- runs, and in the end every aio has been freed as often as it was allocated, each time after it was stopped
-- and with no receive started on it since, and none was used while it was not allocated. Callbacks run only
-- for aios of the peer that are not stopped yet, but also between the rounds of the loop of a stop.
pub listener_life-ends :
    {fb : FlatBuffers} (addr : List ℕ) (workers : ℕ) {s : Listener}
    → Run (listener_class fb) (at_rest (construct addr workers)) (at_rest s)
    → IsSound s × ((a : ℕ) → live a (destroy s).calls ≡ some 0)
unfolding construct destroy
listener_life-ends {fb} addr workers {s} r =
    let new = new-Duty (construct addr workers) refl refl refl refl in
    (
      (Run-Duty (listener_class-laws fb) r new).sound,
      λ a. Run-ends (listener_class-laws fb) a s r new,
    )
