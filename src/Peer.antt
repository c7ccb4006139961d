-- ===== src/Peer.antt =====
-- What NngUdsRpcPeerDial and NngUdsRpcPeerListener (include/NngUdsRpcPeer*.hpp, src/NngUdsRpcPeer*.cpp) have in
-- common: the fields, the table of pending requests with the promises behind it, the messages that
-- they exchange, the receive callback and the remote call.
pub mod State
pub mod Workers
pub mod Pending
pub mod Messages
pub mod Receive
pub mod Call
