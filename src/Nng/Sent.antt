-- ===== src/Nng/Sent.antt =====
-- The messages that a component has sent: those of its calls of nng_sendmsg that succeeded.
use zmq_ipc.Prelude.{ℕ, zero, suc, ◌≡◌, ◌⊎◌, inl, inr, Option, none, some, List, [], ◌∷◌, All}
use zmq_ipc.Nng.{NngCall, sendmsg}

abbrev pub sent_by : NngCall → Option (List ℕ)
sent_by (sendmsg m body zero) = some body
sent_by _ = none

abbrev pub Sent : List ℕ → List NngCall → Type 0
Sent body [] = ⊥
Sent body (c ∷ cs) = (sent_by c ≡ some body) ⊎ Sent body cs

pub Sent-quiet :
    (body : List ℕ) (c : NngCall) (cs : List NngCall)
    → sent_by c ≡ none
    → Sent body (c ∷ cs)
    → Sent body cs
Sent-quiet body c cs q (inl e) = cc
Sent-quiet body c cs q (inr h) = h

pub silent_calls :
    (body : List ℕ) (cs : List NngCall) → All (λ c. sent_by c ≡ none) cs → ¬ Sent body cs
silent_calls body [] h q = q
silent_calls body (c ∷ cs) (h, hs) q = silent_calls body cs hs (Sent-quiet body c cs h q)

pub Sent-send :
    (m rv : ℕ) (body b : List ℕ) (cs : List NngCall)
    → Sent body (sendmsg m b rv ∷ cs)
    → (body ≡ b) ⊎ Sent body cs
Sent-send m zero body b cs (inl e) = inl cc
Sent-send m (suc rv) body b cs (inl e) = cc
Sent-send m rv body b cs (inr h) = inr h
