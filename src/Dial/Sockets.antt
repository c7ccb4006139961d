-- ===== src/Dial/Sockets.antt =====
-- The socket of a dialling peer over its life: what its destructor closes.
use zmq_ipc.Prelude.{
  ℕ, zero, suc, ◌+◌, ◌≡◌, refl, Bool, true, false, Bool-cases, inl, inr, none, some, List, [], ◌∷◌,
  nat_beq, nat_eq, if◌then◌else◌,
}
use zmq_ipc.FlatBuffers.{FlatBuffers}
use zmq_ipc.Nng.{close}
use zmq_ipc.Nng.Sockets.{open_sockets, after_call, after_call-pair0_open}
use zmq_ipc.Peer.State.{Peer, EndsIn-done}
use zmq_ipc.Life.{
  Living, at_rest, Step, starts, begins_stop, stops_worker, ends_stop, receives, moves, Run, here,
  later,
}
use zmq_ipc.Life.Keeping.{OnDuty, Run-Duty}
use zmq_ipc.Dial.{
  Dial, Starting, start_worker, start_workers, stop_workers, set_up, construct, start, stop, reply,
  register_method,
}
use zmq_ipc.Dial.Remote.{reply-OnlyCalls}
use zmq_ipc.Dial.Workers.{connected}
use zmq_ipc.Dial.Lifetime.{dial_class, dial_class-laws, construct-Duty}
use zmq_ipc.Life.Sockets.{Opens, SoundOpens, receive-SoundOpens, Move-Opens}

module _ (n : ℕ) where
  start_worker-Opens : (e : Starting) (i : ℕ) (s : Peer) → Opens n s → Opens n (start_worker e i s)
  unfolding start_worker open_sockets after_call
  start_worker-Opens e i s h = elim (Bool-cases (nat_beq (e.allocating i) 0)) [
    | inl q ↦ rw (q, h) refl
    | inr q ↦ rw (q, h) refl
  ]

  start_workers-Opens :
      (e : Starting) (k i : ℕ) (s : Peer) → Opens n s → Opens n (start_workers e k i s)
  unfolding start_workers
  start_workers-Opens e zero i s h = h
  start_workers-Opens e (suc k) i s h =
      start_workers-Opens e k (i + 1) _ (start_worker-Opens e i s h)

  stop_workers-Opens : (l : List ℕ) (s : Peer) → Opens n s → Opens n (stop_workers l s)
  unfolding stop_workers open_sockets after_call
  stop_workers-Opens [] s h = h
  stop_workers-Opens (a ∷ l) s h = stop_workers-Opens l _ (rw h refl)

-- The socket of a peer that runs is open, and no other.
abbrev Keeps : {A : Type 0} → Dial A → Type 0
Keeps d = Opens (if d.dial_running then 1 else 0) d.peer

module _ {A : Type 0} where
  start-Keeps : (e : Starting) (d : Dial A) → d.dial_running ≡ false → Keeps d → Keeps (start e d).1
  unfolding start set_up open_sockets after_call
  start-Keeps e d off h =
      let none_open : Opens 0 d.peer = rw off at h in
      elim (Bool-cases (nat_beq e.opening 0)) [
        | inl q ↦
            let connected-Opens : Opens 1 (connected e d) =
              rw (none_open, after_call-pair0_open e.opening 0, q) refl in
            rw q (elim (Bool-cases (nat_beq e.connecting 0)) [
              | inl r ↦
                  rw r
                    (start_workers-Opens 1 e d.peer.num_workers 0 (connected e d) connected-Opens)
              | inr r ↦ rw (r, off, connected-Opens) refl
            ])
        | inr q ↦ rw (q, off, none_open, after_call-pair0_open e.opening 0, q) refl
      ]

  stop-Opens :
      (n : ℕ) (d : Dial A) → Opens n d.peer → open_sockets (stop d).peer.calls ≡ after_call close n
  unfolding stop open_sockets
  stop-Opens n d h = rw (stop_workers-Opens n d.peer.aio_list d.peer h) refl

  -- `start` only while it does not run, `stop` only while it does
  abbrev pub Careful :
      {fb : FlatBuffers} {w v : Living (dial_class fb A)} → Run (dial_class fb A) w v → Type 0
  Careful here = Unit
  Careful (later {u} r (starts e idle)) = Careful r × (u.object.dial_running ≡ false)
  Careful (later {u} r (begins_stop idle)) = Careful r × (u.object.dial_running ≡ true)
  Careful (later r _) = Careful r

  -- While a stop goes on, the peer still counts as running.
  record Holds {fb : FlatBuffers} (w : Living (dial_class fb A)) : Type 0 where
    keeps : Keeps w.object
    running : (l : List ℕ) → w.stopping ≡ some l → w.object.dial_running ≡ true

  Run-Holds :
      {fb : FlatBuffers} {w v : Living (dial_class fb A)} (r : Run (dial_class fb A) w v)
      → Careful r
      → OnDuty (dial_class-laws fb A) w
      → Holds w
      → Holds v
  unfolding register_method open_sockets after_call
  Run-Holds here c h k = k
  Run-Holds (later {u} r (starts e idle)) (c, off) h k = record {
    keeps = start-Keeps e u.object off (Run-Holds r c h k).keeps;
    running = λ l q. cc;
  }
  Run-Holds (later {u} r (begins_stop idle)) (c, on) h k = record {
    keeps = (Run-Holds r c h k).keeps;
    running = λ l q. on;
  }
  Run-Holds (later {u} r (stops_worker a rest now)) c h k =
      let before = Run-Holds r c h k in
      record {
        keeps = stop_workers-Opens _ (a ∷ []) u.object.peer before.keeps;
        running = λ l q. before.running (a ∷ rest) now;
      }
  Run-Holds (later {u} r (ends_stop now)) c h k =
      let before = Run-Holds r c h k in
      let one : Opens 1 u.object.peer = rw (before.running [] now) at before.keeps in
      record { keeps = rw one refl; running = λ l q. cc }
  Run-Holds {fb} (later {u} r (receives e {t} has ends)) c h k =
      let before = Run-Holds r c h k in
      let sound = (Run-Duty (dial_class-laws fb A) r h).sound in
      record {
        keeps =
            (EndsIn-done (SoundOpens _) _ t
              (receive-SoundOpens fb (reply fb) (reply-OnlyCalls fb) _ e u.object.peer
                (sound, before.keeps))
              ends).1;
        running = before.running;
      }
  Run-Holds (later r (moves a mv)) c h k =
      let before = Run-Holds r c h k in
      record { keeps = Move-Opens _ mv before.keeps; running = before.running }
  Run-Holds (later r (Step.registers verify name handler)) c h k =
      let before = Run-Holds r c h k in record { keeps = before.keeps; running = before.running }

  -- Of a dialling peer that is started only while it does not run, and stopped only while it does, the
  -- destructor closes the one socket if the peer runs; but if it does not (it never started, failed
  -- to start, or has been stopped), the destructor closes a socket that is not open. Callbacks also run
  -- between the rounds of the loop of a stop.
  pub dial_life-closes :
      {fb : FlatBuffers} (addr : List ℕ) (workers : ℕ) (debug_mode : Bool) {d : Dial A}
      (r : Run (dial_class fb A) (at_rest (construct addr workers debug_mode)) (at_rest d))
      → Careful r
      → open_sockets (stop d).peer.calls ≡ (if d.dial_running then some 0 else none)
  unfolding construct open_sockets after_call stop
  dial_life-closes addr workers debug_mode {d} r c =
      let kept =
        (Run-Holds r c (construct-Duty A addr workers debug_mode)
          (record { keeps = refl; running = λ l q. cc })).keeps in
      elim (Bool-cases d.dial_running) [
        | inl q ↦ rw q (stop-Opens 1 d (rw q at kept))
        | inr q ↦ rw q (stop-Opens 0 d (rw q at kept))
      ]
