-- ===== src/Listener/Sockets.antt =====
-- The sockets of a listening peer over its life: it opens one at each start, and closes one at each stop.
use zmq_ipc.Prelude.{◌>>=◌, ◌&&◌, ℕ, suc, Bool, Option, some, nat_beq, nat_eq, if◌then◌else◌}
use zmq_ipc.FlatBuffers.{FlatBuffers}
use zmq_ipc.Nng.Sockets.{closed}
use zmq_ipc.Peer.State.{Peer}
use zmq_ipc.Life.{Living, starts, ends_stop, Run, here, later}
use zmq_ipc.Listener.{Listener, Starting}
use zmq_ipc.Listener.Lifetime.{listener_class}

-- Whether the socket of a start is open and listens, whatever becomes of its workers.
abbrev pub listens : Starting → Bool
listens e = nat_beq e.opening 0 && nat_beq e.binding 0

-- How many sockets the starts and stops of a run leave open; `none` if a stop finds none.
unfoldable pub sockets_after :
    {fb : FlatBuffers} {w v : Living (listener_class fb)} → Run (listener_class fb) w v → Option ℕ
sockets_after here = some 0
sockets_after (later r (starts e idle)) =
    sockets_after r >>= λ n. some (if listens e then suc n else n)
sockets_after (later r (ends_stop now)) = sockets_after r >>= closed
sockets_after (later r _) = sockets_after r
