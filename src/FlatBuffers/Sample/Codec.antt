-- ===== src/FlatBuffers/Sample/Codec.antt =====
-- The bytes of a buffer of the sample runtime: its root table's fields, one after another.
use zmq_ipc.Prelude.{ℕ, zero, suc, ◌≡◌, ◌≢◌, refl, Option, none, some, List, [], ◌∷◌}
use zmq_ipc.Prelude.Dict.{Dict}
use zmq_ipc.FlatBuffers.Defs.{Content, number, string, vector}

chunk : List ℕ → List ℕ → List ℕ
chunk [] rest = 0 ∷ rest
chunk (x ∷ s) rest = 1 ∷ x ∷ chunk s rest

encode_fields : Dict ℕ Content → List ℕ
unfolding chunk
encode_fields [] = []
encode_fields ((v, number w x) ∷ cs) = 0 ∷ v ∷ w ∷ x ∷ encode_fields cs
encode_fields ((v, string s) ∷ cs) = 1 ∷ v ∷ chunk s (encode_fields cs)
encode_fields ((v, vector s) ∷ cs) = 2 ∷ v ∷ chunk s (encode_fields cs)

-- one byte, where FlatBuffers has the offset of the root, and the fields
unfoldable pub encode : Dict ℕ Content → List ℕ
unfolding encode_fields
encode cs = 4 ∷ encode_fields cs

-- Between fields, or within the string or vector of a field, with what has been read of it.
pub data Mode : Type 0 where
  between : Mode
  within : (List ℕ → Content) → ℕ → (List ℕ → List ℕ) → Mode

cons_field : ℕ × Content → Option (Dict ℕ Content) → Option (Dict ℕ Content)
cons_field f none = none
cons_field f (some cs) = some (f ∷ cs)

decode_from : Mode → List ℕ → Option (Dict ℕ Content)
unfolding cons_field
decode_from between [] = some []
decode_from between (zero ∷ v ∷ w ∷ x ∷ r) = cons_field (v, number w x) (decode_from between r)
decode_from between (suc zero ∷ v ∷ r) = decode_from (within string v (λ s. s)) r
decode_from between (suc (suc zero) ∷ v ∷ r) = decode_from (within vector v (λ s. s)) r
decode_from (within c v k) (zero ∷ r) = cons_field (v, c (k [])) (decode_from between r)
decode_from (within c v k) (suc zero ∷ x ∷ r) = decode_from (within c v (λ s. k (x ∷ s))) r
decode_from _ _ = none

unfoldable pub decode : List ℕ → Option (Dict ℕ Content)
unfolding decode_from
decode [] = none
decode (x ∷ r) = decode_from between r

decode_from-chunk :
    (c : List ℕ → Content) (v : ℕ) (k : List ℕ → List ℕ) (s rest : List ℕ)
    → decode_from (within c v k) (chunk s rest) ≡ cons_field (v, c (k s)) (decode_from between rest)
unfolding decode_from chunk
decode_from-chunk c v k [] rest = refl
decode_from-chunk c v k (x ∷ s) rest = decode_from-chunk c v (λ t. k (x ∷ t)) s rest

decode_from-encode_fields : (cs : Dict ℕ Content) → decode_from between (encode_fields cs) ≡ some cs
unfolding decode_from encode_fields
decode_from-encode_fields [] = refl
decode_from-encode_fields ((v, number w x) ∷ cs) = rw (decode_from-encode_fields cs)
decode_from-encode_fields ((v, string s) ∷ cs) =
    rw (decode_from-chunk string v (λ t. t) s (encode_fields cs))
      (rw (decode_from-encode_fields cs))
decode_from-encode_fields ((v, vector s) ∷ cs) =
    rw (decode_from-chunk vector v (λ t. t) s (encode_fields cs))
      (rw (decode_from-encode_fields cs))

pub decode-encode : (cs : Dict ℕ Content) → decode (encode cs) ≡ some cs
unfolding decode encode
decode-encode cs = decode_from-encode_fields cs

pub encode-ne : (cs : Dict ℕ Content) → encode cs ≢ []
unfolding encode
encode-ne cs e = cc
