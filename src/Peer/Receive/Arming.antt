-- ===== src/Peer/Receive/Arming.antt =====
-- The workers of a peer: each has a receive in progress, or is lost.
use zmq_ipc.Prelude.{
  ◌≤◌, nat_beq_refl, ℕ, ◌+◌, ◌≡◌, refl, ap, Bool, true, false, not, ◌&&◌, Bool-cases, inl, inr,
  List, [], ◌∷◌, ◌++◌, nat_beq, arith, length, length-append, if◌then◌else◌,
}
use zmq_ipc.FlatBuffers.{FlatBuffers}
use zmq_ipc.Nng.{NngCall, recv_aio}
use zmq_ipc.Rpc.{verify}
use zmq_ipc.Peer.State.{Peer, Outcome, done, fault, IfDone, IfDone-done, ◌>>=◌}
use zmq_ipc.Peer.Receive.{Received, receive}
use zmq_ipc.Peer.Receive.Branches.{finished, receive_cases, receive_of_failed, receive_of_refused}

-- `armed` has the aios on which a receive is in progress.
pub record Serving : Type 0 where
  pub peer : Peer
  pub armed : List ℕ

-- Whether the latest call starts a receive on the aio `a`.
abbrev pub arms : ℕ → List NngCall → Bool
arms a (recv_aio b ∷ cs) = nat_beq b a
arms a _ = false

module _ (fb : FlatBuffers) where
  -- a message that was received and fails to verify
  abbrev pub is_malformed : Received → Bool
  is_malformed e = nat_beq e.result 0 && not (fb.verify_buffer (verify fb) (fb.verifier e.body))

  unfoldable pub malformed : List Received → ℕ
  malformed [] = 0
  malformed (e ∷ es) = (if is_malformed e then 1 else 0) + malformed es

module _ (fb : FlatBuffers) (reply : Received → ℕ → List ℕ → List ℕ → Peer → Outcome Peer) where
  -- nng runs the callback of an aio when its receive ends, and no sooner.
  pub data Step (w : Serving) : Received → Serving → Type 0 where
    receives :
        (e : Received) (before after : List ℕ) {t : Peer}
        → w.armed ≡ before ++ (e.aio ∷ after)
        → receive fb reply e w.peer ≡ done t
        → Step w e (record {
          peer = t;
          armed = before ++ (if arms e.aio t.calls then e.aio ∷ after else after);
        })

  -- the messages of a run, the latest first
  pub data Run (w : Serving) : List Received → Serving → Type 0 where
    here : Run w [] w
    later :
        {es : List Received} {e : Received} {u v : Serving}
        → Run w es u
        → Step u e v
        → Run w (e ∷ es) v

  -- what a callback does with the aio that it was run for, if it ends
  abbrev Arms : Received → Bool → Outcome Peer → Type 0
  Arms e b o = IfDone (λ t. arms e.aio t.calls ≡ b) o

  finished-Arms : (e : Received) (o : Outcome Peer) → Arms e true (o >>= λ t. done (finished e t))
  finished-Arms e (done t) = nat_beq_refl e.aio
  finished-Arms e (fault x) = tt

  verified-Arms :
      (e : Received) (s : Peer)
      → fb.verify_buffer (verify fb) (fb.verifier e.body) ≡ true
      → Arms e true (receive fb reply e s)
  verified-Arms e s v =
      receive_cases fb reply (Arms e true) e s (nat_beq_refl e.aio) (λ q. cc) (nat_beq_refl e.aio)
        (λ _ _. tt) (λ i name load h found. finished-Arms e _) λ r. finished-Arms e _

  receive-Arms : (e : Received) (s : Peer) → Arms e (not (is_malformed fb e)) (receive fb reply e s)
  receive-Arms e s = elim (Bool-cases (nat_beq e.result 0)) [
    | inl ok ↦ elim (Bool-cases (fb.verify_buffer (verify fb) (fb.verifier e.body))) [
      | inl v ↦ rw (ok, v) (verified-Arms e s v)
      | inr v ↦
          let z : e.result ≡ 0 = ground arith in
          rw (ok, v, receive_of_refused fb reply e s z v) refl
    ]
    | inr ko ↦ rw (ko, receive_of_failed fb reply e s ko) (nat_beq_refl e.aio)
  ]

  pub Step-armed :
      {w v : Serving} {e : Received}
      → Step w e v
      → length v.armed + (if is_malformed fb e then 1 else 0) ≡ length w.armed
  Step-armed {w} (receives e before after {t} at ends) =
      let rearms : arms e.aio t.calls ≡ not (is_malformed fb e) =
        IfDone-done (λ u. arms e.aio u.calls ≡ not (is_malformed fb e)) _ t (receive-Arms e w.peer)
          ends in
      elim (Bool-cases (is_malformed fb e)) [
        | inl bad ↦
            rw (rearms, bad, at)
              (omega
                (arith, length-append {0} before after, length-append {0} before (e.aio ∷ after)))
        | inr fine ↦ rw (rearms, fine, at) (omega arith)
      ]

  -- Every worker receives again after a message, but after a malformed one, with which it is lost: the
  -- workers that receive, and the malformed messages so far, are as many as the workers at first.
  Run-armed :
      {w v : Serving} {es : List Received}
      → Run w es v
      → length v.armed + malformed fb es ≡ length w.armed
  unfolding malformed
  Run-armed here = omega arith
  Run-armed (later r s) = omega (arith, Run-armed r, Step-armed s)

  -- When as many malformed messages have arrived as the peer has workers, it receives nothing any more.
  pub Run-deaf :
      {w v u : Serving} {es : List Received} {e : Received}
      → Run w es v
      → length w.armed ≤ malformed fb es
      → ¬ Step v e u
  Run-deaf {v} r enough (receives e before after at ends) =
      omega (arith, enough, Run-armed r, ap length at, length-append {0} before (e.aio ∷ after))
