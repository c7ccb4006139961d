-- ===== src/Listener/Remote.antt =====
-- Remote calls of the listening peer while its callbacks run.
use zmq_ipc.Prelude.{
  ℕ, ◌≡◌, ◌≢◌, refl, ◌⊎◌, inl, inr, true, false, Bool-cases, Option, none, some, List, [], nat_eq,
  nat_beq, length, All,
}
use zmq_ipc.Prelude.Dict.{find}
use zmq_ipc.FlatBuffers.{FlatBuffers}
use zmq_ipc.Nng.{msg_alloc, msg_free, sendmsg}
use zmq_ipc.Peer.State.{Peer, EndsIn, EndsIn-map}
use zmq_ipc.Peer.Pending.Laws.{IsSound}
use zmq_ipc.Peer.Receive.{Received}
use zmq_ipc.Peer.Receive.Branches.{OfCallback}
use zmq_ipc.Peer.Call.{Gap, Calling}
use zmq_ipc.Peer.Call.Ends.{Over, call-Over}
use zmq_ipc.Peer.Call.Callbacks.{OnlyCalls, Answers, among, callbacks-Respect}
use zmq_ipc.Listener.{Answer, answer, reply, call_remote}

-- `*resp_size`, unless the pointer is null
abbrev sized : ℕ → Option ℕ → Option ℕ
sized n none = none
sized n (some old) = some n

-- How call_remote ends: a sound table, the request no longer pending, and either `true` with the bytes of
-- a result that has `P` and their number, or `false` with both arguments left alone.
abbrev pub AnswerOver :
    ℕ → (Option (List ℕ) → Type 0) → Option (List ℕ) → Option ℕ → Answer × Peer → Type 0
AnswerOver i P buf size (a, t) =
    IsSound t
    × (find i t.pending_requests ≡ none)
    × (((bytes : List ℕ) × (bytes ≢ [])
          × P (some bytes)
          × (a ≡ record {
            returned = true;
            resp_buf = some bytes;
            resp_size = sized (length bytes) size;
          }))
        ⊎ (a ≡ record { returned = false; resp_buf = buf; resp_size = size }))

pub reply-OnlyCalls : (fb : FlatBuffers) → OnlyCalls (reply fb)
unfolding reply
reply-OnlyCalls fb Q e keeps i name resp s h = elim (Bool-cases (nat_beq e.rsp_alloc 0)) [
  | inl q ↦ rw q (
      keeps (msg_free _) _ OfCallback.frees
        (keeps (sendmsg _ _ _) _ OfCallback.sends (keeps (msg_alloc _ _) s OfCallback.allocates h)))
  | inr q ↦ rw q tt
]

answer-Over :
    (i : ℕ) (P : Option (List ℕ) → Type 0) (buf : Option (List ℕ)) (size : Option ℕ)
    (o : Option (List ℕ) × Peer)
    → Over i P o
    → AnswerOver i P buf size (answer o.0 buf size, o.1)
unfolding answer
answer-Over i P buf size (none, t) (h, gone, from) = (h, gone, inr refl)
answer-Over i P buf none (some bytes, t) (h, gone, from) =
    let (ne, good) = from bytes refl in (h, gone, inl (bytes, ne, good, refl))
answer-Over i P buf (some old) (some bytes, t) (h, gone, from) =
    let (ne, good) = from bytes refl in (h, gone, inl (bytes, ne, good, refl))

-- A remote call of the listening peer, with any messages arriving in any of its gaps and any results of nng,
-- ends with a sound table and its request no longer pending. It returns true only with the payload
-- of a response to its own id, which is not empty, and its size where the caller asks for one; else
-- it returns false and leaves its two arguments alone. The only faults are null pointers and failed
-- allocations in the callbacks. The first id that the call takes is not in use.
pub listener_call_remote-AnswerOver :
    (fb : FlatBuffers) (e : Calling) (es : Gap → List Received) (name req : List ℕ)
    (buf : Option (List ℕ)) (size : Option ℕ) (P : Option (List ℕ) → Type 0) (s : Peer)
    → IsSound s
    → find s.next_request_id s.pending_requests ≡ none
    → ((g : Gap) → All (Answers fb s.next_request_id P) (es g))
    → EndsIn
        (AnswerOver s.next_request_id P buf size)
        (call_remote fb (among fb (reply fb) es e) name req buf size s)
unfolding call_remote
listener_call_remote-AnswerOver fb e es name req buf size P s h new fits =
    EndsIn-map (Over s.next_request_id P) (AnswerOver s.next_request_id P buf size) _ _
      (answer-Over s.next_request_id P buf size)
      (call-Over fb (among fb (reply fb) es e) name req P s h new
        (callbacks-Respect fb (reply fb) (reply-OnlyCalls fb) s.next_request_id P es e fits))
