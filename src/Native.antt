-- ===== src/Native.antt =====
-- js/include/thc.js: the C library as compiled for JavaScript. The file is generated, so the functions
-- that js/core.js calls are operations of these records. A state of the C side is an argument and a
-- result; pointers are numbers, and a null pointer is `none`.
use telehash_c.Prelude.{ℕ, ◌≡◌, Bool, Option, none, some, List, [], ◌∷◌, ◌++◌}

-- `util_frames_*` on one `util_frames_t` of type `F`; `P` is the type of packets (`lob_t`).
pub record FramesApi (F P : Type 0) : Type 0 where
  pub pending : F → Bool
  -- `util_frames_outbox` fills the caller's buffer of the given size.
  pub outbox : F → ℕ → F × List ℕ
  pub sent : F → F
  pub inbox : F → List ℕ → F
  pub is_ok : F → Bool
  pub clear : F → F
  pub receive : F → Option P × F
  pub send : F → P → F
  -- The packets that `receive` has still to give, in their order.
  pub waiting : F → List P

abbrev pub of_option : {A : Type 0} → Option A → List A
of_option none = []
of_option (some a) = a ∷ []

-- What core.js relies on: `receive` takes the first packet that waits, until there is none, and
-- sending and receiving do not meet.
pub record FramesLaws {F P : Type 0} (api : FramesApi F P) : Type 0 where
  pub receive-waiting :
      (f : F) → of_option (api.receive f).0 ++ api.waiting (api.receive f).1 ≡ api.waiting f
  pub receive_none : (f : F) → (api.receive f).0 ≡ none → api.waiting f ≡ []
  pub pending-receive : (f : F) → api.pending (api.receive f).1 ≡ api.pending f
  pub waiting-send : (f : F) (p : P) → api.waiting (api.send f p) ≡ api.waiting f
  pub waiting-sent :
      (f : F) (size : ℕ) → api.waiting (api.sent (api.outbox f size).0) ≡ api.waiting f

-- The calls on one `mesh_t` of type `M`. The list beside a result holds the packets that the call
-- hands to the delivery pipe of core.js before it returns.
pub record MeshApi (M P : Type 0) : Type 0 where
  pub mesh_receive : M → P → M × Option ℕ × List P
  pub mesh_add : M → P → M × Option ℕ × List P
  pub mesh_link : M → ℕ → M
  pub link_pipe : M → ℕ → M × List P
  pub mesh_json : M → P
