-- ===== src/Lib.antt =====
-- ZmqIpc: remote procedure calls between two processes over nng sockets, with messages in FlatBuffers.
--
-- A dialling peer (src/NngUdsRpcPeerDial.cpp) and a listening peer (src/NngUdsRpcPeerListener.cpp) share a
-- pair socket. Either may call a method of the other: call_remote sends a request with a fresh id and waits for
-- the response with that id, which a receive callback hands to it through a promise. The callback also
-- serves the requests of the other side from the methods that are registered.
--
-- Prelude: tests, lists, and std::unordered_map as an association list (Prelude/Dict).
-- FlatBuffers: the runtime under include/flatbuffers, another project's, as a parameter: its operations and its
--   documented behaviour (FlatBuffers/Defs, FlatBuffers/Laws). FlatBuffers/Sample is a runtime that has this
--   behaviour, with an encoding of its own, for the examples.
-- Nng: the calls of nng, another project's, as they are recorded, and the rules of its manual on messages
--   (Nng/Ownership), aios (Nng/Aios) and sockets (Nng/Sockets). Results of calls are arguments of the operations.
-- Rpc: include/rpc_generated.h, the table RpcMessage. Rpc/Fields has fields that may be left out, Direct what a buffer
--   with any of its two pointers holds, RoundTrip a message with both, and Creating CreateRpcMessageDirect.
-- Peer: the code that both peers repeat. State has the fields; a promise's shared state has an address. Pending is
--   the table of pending requests, Messages the two messages, Receive recv_cb up to the way a response is sent,
--   Call call_remote up to the bytes it gives. What other threads do between the steps of a call is the argument
--   `others` of `Calling`, one function for each gap; steps under the mutex are single steps. Peer/Call/Ends is
--   about how a call ends, Ownership about its message, and Callbacks fills the gaps with receive callbacks; its
--   receive-WithSound is the rule by which the modules after it show what a callback keeps. Peer/Workers is about
--   the list of aios, Peer/Receive/Arming about the workers that still receive after a number of messages, and
--   Peer/Receive/Direct about any message that CreateRpcMessageDirect builds.
-- Dial, Listener: the two classes, their workers, methods, callbacks and calls; Dial/Logging has what the dialling
--   one logs of methods and pipes. Dial/Exchange joins a dialling caller and a listening server; Dial/Remote and
--   Listener/Remote have call_remote among callbacks. Dial/Typed has methods on two kinds of generated tables, and
--   Dial/Exchange/Typed a call of such a method.
-- Life: an object of either class from its constructor to its destructor: starts, stops, registrations, callbacks
--   and the threads that call through it, in any order; a `stop` is a step for each round of its loop, and
--   callbacks of the aios that are left may run between them. A class is given as its operations (PeerClass), with
--   what they must keep (Life/Keeping), of which Life/Duty and Life/Sockets have what is not special to a class;
--   Dial/Lifetime and Listener/Lifetime are the two classes, and Dial/Sockets and Listener/Sockets are about what
--   the destructor closes.
-- Network: a dialling and a listening peer, on both sides any number of threads in call_remote, the callbacks of
--   both, and methods that are registered, as steps that are taken in any order. A callback is one step, since it
--   holds the mutex at most once, and runs only for an aio on which a receive is in progress. A receive gives a
--   message that the other side has sent at some time (Nng/Sent), so messages may be lost, repeated and reordered.
--   Network/Callers is what one thread relies on, Invariant what every step keeps, Arming the receives in
--   progress, Answering and Answered that a call that waits can be answered, Succeeding that one that has not
--   begun can be, Peers the two classes as the two sides, Typed the calls of typed methods, and Calls the function
--   `call` as one such thread.
-- Params: include/request_param_generated.h and include/response_param_generated.h, a module for each table, and
--   round trips by the kind of field (Params/Scalars, Params/Pointers). Params/Kinds lists the kinds, with the values of
--   each and its two tables, and Params/Tables is about any of them.
-- Push: src/NngUdsRpcPushDial.cpp, and its socket over a sequence of calls (Push/Socket).
-- Pull: src/NngUdsRpcPullListener.cpp. Its methods are cut where a thread waits, and Pull/Steps has the steps that
--   the user's thread and the receiving thread take in any order; Pull/Lifecycle and Pull/Closing are about their runs.
-- Stream: a pusher and a puller over a connection that may lose messages, as steps taken in any order; what the callback
--   of the puller is given is in Stream/Delivery.
-- Handler: include/IHandler.hpp and include/IHandlerImpl.hpp. ResultBytes: include/rpc_response_utils.hpp. Results: what the reader of a response
--   that these make sees. Methods: handlers that are registered in either class.
-- Examples: the theorems at concrete inputs.
--
-- Bounds. Ids are numbers below 2 ^ 32 that wrap; the threads of Network take ids until the counter would wrap.
-- Loops run over lists or over the number of workers, so no fuel is needed. A buffer is assumed to be below the
-- limit of FlatBuffers where it must verify.
--
-- Not modelled: log output, but for what Dial/Logging has; when nng_sendmsg blocks (a send has a result, but no
-- time), the mutexes (steps under them are single steps), and the race on method_map, which has no lock; the
-- time that a wait takes (it ends when the gap `sent` ends); handlers that call back into their own peer; the
-- memory of promises after a call. The class NngUdsRpcClient is declared and has no implementation. The copies
-- of other projects, include/flatbuffers and include/nng, are parameters and not modelled themselves. The rest
-- of the repository's own code is modelled.
pub mod Prelude
pub mod FlatBuffers
pub mod Rpc
pub mod Network
pub mod Life
pub mod Params
pub mod Nng
pub mod Peer
pub mod Dial
pub mod Listener
pub mod Push
pub mod Pull
pub mod Stream
pub mod Handler
pub mod Methods
pub mod Results
pub mod ResultBytes
pub mod Examples
