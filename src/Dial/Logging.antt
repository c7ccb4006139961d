-- ===== src/Dial/Logging.antt =====
-- What src/NngUdsRpcPeerDial.cpp and include/NngUdsRpcPeerDial.hpp log of pipes and methods.
use zmq_ipc.Prelude.{
  ℕ, ◌+◌, ◌≡◌, ◌↔◌, refl, Bool, true, false, ◌&&◌, ◌||◌, Option, none, some, List, [], ◌∷◌, ◌++◌,
  arith, ◌==◌, bytes_eq, beq_iff, if◌then◌else◌,
}
use zmq_ipc.Prelude.Dict.{Dict, find, erase, assign, find-assign}
use zmq_ipc.FlatBuffers.{FlatBuffers}
use zmq_ipc.Nng.{PipeEvent, add_post, rem_post}
use zmq_ipc.Peer.State.{HandlerFunc}
use zmq_ipc.Dial.{Dial, register_method, wrapper}

-- the lines, with the arguments of their formats
pub data Line : Type 0 where
  lost_connection connected : ℕ → Line
  method_start method_end : Line
  method_name : List ℕ → Line

-- the loop of dumpRegisteredMethods
unfoldable pub dump_names : Bool → Dict (List ℕ) HandlerFunc → List Line
dump_names debug_mode [] = []
dump_names debug_mode ((name, h) ∷ m) =
    let rest = dump_names debug_mode m in if debug_mode then method_name name ∷ rest else rest

module _ {ℓ} {A : Type ℓ} where
  -- dumpRegisteredMethods
  unfoldable pub dump_registered_methods : Dial A → List Line
  unfolding dump_names
  dump_registered_methods d =
      method_start ∷ dump_names d.is_debug_mode d.peer.method_map ++ (method_end ∷ [])

  -- internalNngPipeEvent, given nng_pipe_id
  unfoldable pub internal_nng_pipe_event : (ℕ → ℕ) → Dial A → ℕ → PipeEvent → List Line
  internal_nng_pipe_event pipe_id d p rem_post =
      if d.is_debug_mode then lost_connection (pipe_id p) ∷ [] else []
  internal_nng_pipe_event pipe_id d p add_post =
      if d.is_debug_mode then connected (pipe_id p) ∷ [] else []

  -- pipe_cb: what the handler does, and what is logged then; without a handler, neither
  unfoldable pub pipe_cb : (ℕ → ℕ) → Dial A → ℕ → PipeEvent → Option A × List Line
  unfolding internal_nng_pipe_event
  pipe_cb pipe_id d p ev = elim d.on_pipe_event [
    | none ↦ (none, [])
    | some handler ↦ (some (handler p ev), internal_nng_pipe_event pipe_id d p ev)
  ]

-- how many lines a name has
unfoldable pub printed : List ℕ → List Line → ℕ
printed n [] = 0
printed n (method_name name ∷ ls) = (if name == n then 1 else 0) + printed n ls
printed n (lost_connection p ∷ ls) = printed n ls
printed n (connected p ∷ ls) = printed n ls
printed n (method_start ∷ ls) = printed n ls
printed n (method_end ∷ ls) = printed n ls

-- How often a map has a key.
unfoldable keyed : List ℕ → Dict (List ℕ) HandlerFunc → ℕ
keyed n [] = 0
keyed n ((name, h) ∷ m) = (if name == n then 1 else 0) + keyed n m

keyed-erase :
    (k n : List ℕ) (m : Dict (List ℕ) HandlerFunc)
    → keyed n (erase k m) ≡ (if k == n then 0 else keyed n m)
unfolding keyed erase
keyed-erase k n [] = ground arith
keyed-erase k n ((i, h) ∷ m) =
    ground
      (arith, keyed-erase k n m, beq_iff bytes_eq i k, beq_iff bytes_eq i n, beq_iff bytes_eq k n)

keyed-assign :
    (k n : List ℕ) (h : HandlerFunc) (m : Dict (List ℕ) HandlerFunc)
    → keyed n (assign k h m) ≡ (if k == n then 1 else keyed n m)
unfolding keyed assign
keyed-assign k n h m = ground (arith, keyed-erase k n m)

printed-dump_names :
    (debug_mode : Bool) (n : List ℕ) (m : Dict (List ℕ) HandlerFunc)
    → printed n (dump_names debug_mode m ++ (method_end ∷ []))
      ≡ (if debug_mode then keyed n m else 0)
unfolding printed dump_names keyed
printed-dump_names true n [] = refl
printed-dump_names false n [] = refl
printed-dump_names true n ((name, h) ∷ m) = rw (printed-dump_names true n m) refl
printed-dump_names false n ((name, h) ∷ m) = printed-dump_names false n m

module _ (fb : FlatBuffers) where
  -- a call of register_method
  pub record Registration : Type 0 where
    pub verify : fb.Table → fb.Verifier → Option fb.Verifier
    pub name : List ℕ
    pub handler : fb.Table → fb.Builder → ℕ × fb.Builder

  abbrev pub register_all {ℓ} : {A : Type ℓ} → List Registration → Dial A → Dial A
  register_all [] d = d
  register_all (r ∷ rs) d =
      let e = register_all rs d in
      record e { peer = register_method fb r.verify r.name r.handler e.peer }

  abbrev pub is_registered : List ℕ → List Registration → Bool
  is_registered n [] = false
  is_registered n (r ∷ rs) = (r.name == n) || is_registered n rs

module _ {ℓ} (fb : FlatBuffers) {A : Type ℓ} (d : Dial A) where
  abbrev methods_after : List (Registration fb) → Dict (List ℕ) HandlerFunc
  methods_after rs = (register_all fb rs d).peer.method_map

  register_all-debug_mode :
      (rs : List (Registration fb)) → (register_all fb rs d).is_debug_mode ≡ d.is_debug_mode
  register_all-debug_mode [] = refl
  register_all-debug_mode (r ∷ rs) = register_all-debug_mode rs

  module _ (n : List ℕ) (empty : d.peer.method_map ≡ []) where
    keyed-register_all :
        (rs : List (Registration fb))
        → keyed n (methods_after rs) ≡ (if is_registered fb n rs then 1 else 0)
    unfolding register_method keyed
    keyed-register_all [] = rw empty refl
    keyed-register_all (r ∷ rs) = ground (
      arith,
      keyed-assign r.name n (wrapper fb r.verify r.handler) (methods_after rs),
      keyed-register_all rs,
    )

    found-register_all :
        (rs : List (Registration fb))
        → (find n (methods_after rs) ≡ none) ↔ (is_registered fb n rs ≡ false)
    unfolding register_method find
    found-register_all [] = rw empty ((λ e. refl), (λ e. refl))
    found-register_all (r ∷ rs) = ground (
      arith,
      find-assign r.name n (wrapper fb r.verify r.handler) (methods_after rs),
      found-register_all rs,
    )

    -- After any registrations on a peer without methods, dumpRegisteredMethods logs, in debug mode, one line for
    -- every name that was registered, however often that was, and none for any other name, and these are the names
    -- under which dispatch finds a method; not in debug mode, it logs no name.
    pub dump-register_all :
        (rs : List (Registration fb))
        → (printed n (dump_registered_methods (register_all fb rs d))
            ≡ (if d.is_debug_mode && is_registered fb n rs then 1 else 0))
          × ((find n (register_all fb rs d).peer.method_map ≡ none)
              ↔ (is_registered fb n rs ≡ false))
    unfolding dump_registered_methods printed
    dump-register_all rs = (
      ground (
        arith,
        printed-dump_names (register_all fb rs d).is_debug_mode n (methods_after rs),
        register_all-debug_mode rs,
        keyed-register_all rs,
      ),
      found-register_all rs,
    )
