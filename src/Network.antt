-- ===== src/Network.antt =====
-- Two peers that call each other: on both sides, any number of threads in call_remote (src/NngUdsRpcPeerDial.cpp,
-- src/NngUdsRpcPeerListener.cpp), the callbacks of both peers, methods that are registered, and a connection that may lose, repeat and
-- reorder messages.
pub mod Callers
pub mod Invariant
pub mod Peers
pub mod Typed
pub mod Arming
pub mod Answering
pub mod Answered
pub mod Succeeding
pub mod Calls
use zmq_ipc.Prelude.{
  ℕ, ◌+◌, ◌^◌, ◌<◌, ◌≡◌, ◌≢◌, Option, none, some, List, [], ◌∷◌, ◌++◌, if◌then◌else◌, nat_eq,
  bytes_eq,
}
use zmq_ipc.Prelude.Dict.{find, assign}
use zmq_ipc.Prelude.Family.{set_at}
use zmq_ipc.FlatBuffers.{FlatBuffers}
use zmq_ipc.Nng.{msg_alloc, sendmsg}
use zmq_ipc.Nng.Sent.{Sent}
use zmq_ipc.Peer.State.{with_handler, Peer, HandlerFunc, Outcome, done, unset, value, called}
use zmq_ipc.Peer.Messages.{request_buffer}
use zmq_ipc.Peer.Pending.{generate_request_id, make_promise, register_pending, erase_pending}
use zmq_ipc.Peer.Receive.{Received, receive}
use zmq_ipc.Peer.Receive.Arming.{arms}
use zmq_ipc.Peer.Call.{non_empty}

-- The arguments of a call.
pub record Ask : Type 0 where
  pub method_name : List ℕ
  pub req_buf : List ℕ

-- Where a thread stands in call_remote, with the variables that are live there: the id, the message and
-- the address of its promise. It is `leaving` between a send that failed, or a wait that ended, and
-- the erasing of its entry; `over` has the bytes that it gives, `none` for false.
pub data Caller : Type 0 where
  idle : Caller
  numbered : ℕ → Caller
  allocated : ℕ → ℕ → Caller
  registered : ℕ → ℕ → ℕ → Caller
  waiting : ℕ → ℕ → Caller
  leaving : ℕ → Caller
  over : ℕ → Option (List ℕ) → Caller

module _ (fb : FlatBuffers) where
  -- One step of one thread. Ids are taken until the counter would wrap. That nng takes a message may need time
  -- and a connection: the step `sends` is taken when it has.
  pub data Move (a : Ask) : Caller → Peer → Caller → Peer → Type 0 where
    takes :
        {s : Peer}
        → s.next_request_id + 1 < 2 ^ 32
        → Move a idle s (numbered (generate_request_id s).0) (generate_request_id s).1
    allocates :
        {i : ℕ} {s : Peer} (m : ℕ)
        → Move a (numbered i) s (allocated i m) (called (msg_alloc m 0) s)
    has_no_memory :
        {i : ℕ} {s : Peer} (m rv : ℕ)
        → rv ≢ 0
        → Move a (numbered i) s (over i none) (called (msg_alloc m rv) s)
    registers :
        {i m : ℕ} {s : Peer}
        → Move a
            (allocated i m)
            s
            (registered i m (make_promise s).0)
            (register_pending i (make_promise s).0 (make_promise s).1)
    sends :
        {i m p : ℕ} {s : Peer}
        → Move a
            (registered i m p)
            s
            (waiting i p)
            (called (sendmsg m (request_buffer fb i a.method_name a.req_buf) 0) s)
    fails :
        {i m p : ℕ} {s : Peer} (rv : ℕ)
        → rv ≢ 0
        → Move a
            (registered i m p)
            s
            (leaving i)
            (called (sendmsg m (request_buffer fb i a.method_name a.req_buf) rv) s)
    wakes :
        {i p : ℕ} {r : Option (List ℕ)} {s : Peer}
        → find p s.promises ≡ some (value r)
        → Move a (waiting i p) s (over i (non_empty r)) s
    expires :
        {i p : ℕ} {s : Peer} → find p s.promises ≡ some unset → Move a (waiting i p) s (leaving i) s
    erases : {i : ℕ} {s : Peer} → Move a (leaving i) s (over i none) (erase_pending i s)

pub data Side : Type 0 where
  dialling listening : Side

abbrev pub other : Side → Side
other dialling = listening
other listening = dialling

-- `f`, but `a` on side `x`
abbrev pub put : {A : Type 0} → (Side → A) → Side → A → Side → A
put f dialling a dialling = a
put f dialling a listening = f listening
put f listening a dialling = f dialling
put f listening a listening = a

-- The threads of one side, their peer, and the aios on which a receive is in progress.
pub record Half : Type 0 where
  pub caller : ℕ → Caller
  pub peer : Peer
  pub armed : List ℕ

abbrev pub World : Type 0
World = Side → Half

-- The handlers that a side may ever have registered under a name.
abbrev pub Offers : Type 1
Offers = List ℕ → HandlerFunc → Type 0

-- Thread `k` of side `x` calls with the arguments `asks x k`.
module _ (fb : FlatBuffers) (replies : Side → Received → ℕ → List ℕ → List ℕ → Peer → Outcome Peer)
    (methods : Side → Offers) (asks : Side → ℕ → Ask) where
  -- nng runs the callback of an aio when its receive ends, and no sooner. A receive that succeeds gives a message
  -- that the other side has sent at some time.
  pub data Step (w : World) : World → Type 0 where
    moves :
        (x : Side) (k : ℕ) {c : Caller} {s : Peer}
        → Move fb (asks x k) ((w x).caller k) (w x).peer c s
        → Step w
            (put w x (record { caller = set_at (w x).caller k c; peer = s; armed = (w x).armed }))
    receives :
        (x : Side) (e : Received) (before after : List ℕ) {t : Peer}
        → (w x).armed ≡ before ++ (e.aio ∷ after)
        → (e.result ≡ 0 → Sent e.body (w (other x)).peer.calls)
        → receive fb (replies x) e (w x).peer ≡ done t
        → Step w (
            put w x (record {
              caller = (w x).caller;
              peer = t;
              armed = before ++ (if arms e.aio t.calls then e.aio ∷ after else after);
            }))
    -- `register_method` of either class, with the handler that its wrapper makes, while no callback reads the methods
    -- (the source has no lock that sees to it)
    installs :
        (x : Side) (name : List ℕ) (h : HandlerFunc)
        → methods x name h
        → Step w (
            put w x (record {
              caller = (w x).caller;
              peer = with_handler name h (w x).peer;
              armed = (w x).armed;
            }))

  pub data Run (w : World) : World → Type 0 where
    here : Run w w
    later : {u v : World} → Run w u → Step u v → Run w v
