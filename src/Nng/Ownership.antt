-- ===== src/Nng/Ownership.antt =====
-- The rule of nng's manual on messages: a message is owned by who allocated or received it, until it
-- is freed or a send of it succeeds, and only its owner may send or free it.
use zmq_ipc.Prelude.{
  ◌>>=◌, ℕ, zero, suc, Bool, true, false, Option, none, some, List, [], ◌∷◌, nat_beq, if◌then◌else◌,
}
use zmq_ipc.Nng.{NngCall, aio_get_msg, msg_alloc, msg_free, sendmsg}

unfoldable pub holds : ℕ → List ℕ → Bool
holds m [] = false
holds m (p ∷ ps) = if nat_beq p m then true else holds m ps

unfoldable pub release : ℕ → List ℕ → List ℕ
release m [] = []
release m (p ∷ ps) = if nat_beq p m then ps else p ∷ release m ps

give_up : ℕ → List ℕ → Option (List ℕ)
give_up m ps = if holds m ps then some (release m ps) else none

-- What is owned after one more call; `none` for a call that breaks the rule.
unfoldable pub after_call : NngCall → List ℕ → Option (List ℕ)
unfolding give_up
after_call (aio_get_msg m) ps = some (m ∷ ps)
after_call (msg_alloc m zero) ps = some (m ∷ ps)
after_call (msg_alloc m (suc rv)) ps = some ps
after_call (msg_free m) ps = give_up m ps
after_call (sendmsg m body zero) ps = give_up m ps
after_call (sendmsg m body (suc rv)) ps = if holds m ps then some ps else none
after_call _ ps = some ps

-- The messages owned after the calls of a history, the latest call first.
unfoldable pub owned : List NngCall → Option (List ℕ)
unfolding after_call
owned [] = some []
owned (c ∷ cs) = owned cs >>= after_call c
