-- ===== src/Chunks.antt =====
-- js/core.js, class Chunks: packets cut into chunks by the package lob-enc, whose chunking stream is
-- the environment here: it reports packets, it is given packets, and it emits chunks to write.
pub mod Queue
pub mod Delivery
pub mod Draining
pub mod Runs
pub mod Closing
mod Tests
use telehash_c.Prelude.{
  ℕ, zero, suc, Bool, true, false, Option, none, some, List, [], ◌∷◌, ◌++◌, ◌==◌,
}
use telehash_c.Native.{MeshApi}

-- The variables that the constructor's closures share.
pub record Chunks (M P D : Type 0) : Type 0 where
  pub queue : Queue.Queue D
  pub mesh : M
  pub link : Option ℕ
  pub linked : Bool
  pub c_link : Option ℕ
  -- What was given to `this.chunks.send`; the links that were given the pipe, and those whose `Link` is
  -- told 'down', if the mesh lists it.
  pub outgoing : List P
  pub pipes : List ℕ
  pub downs : List (Option ℕ)

pub data Event (P D : Type 0) : Type 0 where
  received : Bool → Option P → Event P D
  queued : Queue.Event D → Event P D
  deliver : Option P → Event P D
  close : Event P D

module _ {M P D : Type 0} where
  -- The function that `link_pipe` is given.
  unfoldable pub pipe : Option P → Chunks M P D → Chunks M P D
  pipe none t = t
  pipe (some packet) t = record t { outgoing = t.outgoing ++ packet ∷ [] }

  unfoldable pub pipe_all : List P → Chunks M P D → Chunks M P D
  pipe_all [] t = t
  pipe_all (p ∷ ps) t = pipe_all ps (pipe (some p) t)

  -- The handler of 'close' is set when the stream is linked. It reads the variable `link`, which each
  -- packet overwrites.
  unfoldable pub on_close : Bool → Chunks M P D → Chunks M P D
  on_close false t = t
  on_close true t = record t { downs = t.downs ++ t.link ∷ [] }

module _ {M P : Type 0} (ma : MeshApi M P) (D : Type 0) where
  unfoldable pub establish : ℕ → Chunks M P D → Chunks M P D
  establish link t =
      let (m, ps) = ma.link_pipe (ma.mesh_link t.mesh link) link in
      pipe_all ps
        (record t { mesh = m; c_link = some link; linked = true; pipes = t.pipes ++ link ∷ [] })

  unfoldable pub attach : Bool → Option ℕ → Chunks M P D → Chunks M P D
  attach true link t = t
  attach false none t = t
  attach false (some link) t = establish link t

  unfoldable pub found : M × Option ℕ × List P → Chunks M P D → Chunks M P D
  found (m, link, ps) t =
      let t' = record (pipe_all ps (record t { mesh = m })) { link = link } in
      attach t'.linked link t'

  -- `function receive(err, packet)`
  unfoldable pub on_receive : Bool → Option P → Chunks M P D → Chunks M P D
  on_receive true packet t = t
  on_receive false none t = t
  on_receive false (some packet) t = found (ma.mesh_receive t.mesh packet) t

  unfoldable pub step : Event P D → Chunks M P D → Chunks M P D
  step (received err packet) t = on_receive err packet t
  step (queued e) t = record t { queue = Queue.step e t.queue }
  step (deliver packet) t = pipe packet t
  step close t = on_close t.linked t

  unfoldable pub run : List (Event P D) → Chunks M P D → Chunks M P D
  run [] t = t
  run (e ∷ es) t = run es (step e t)

  -- The constructor; its last line sends the greeting.
  unfoldable pub start : M → Chunks M P D
  start m = pipe (some (ma.mesh_json m)) (record {
    queue = Queue.empty;
    mesh = m;
    link = none;
    linked = false;
    c_link = none;
    outgoing = [];
    pipes = [];
    downs = [];
  })

unfoldable pub cleanup : {M P D : Type 0} → ℕ → Chunks M P D → Bool
cleanup c_link t = elim t.c_link [ none ↦ false | some link ↦ c_link == link ]

-- The events of the write queue among all events.
pub queue_events : {P D : Type 0} → List (Event P D) → List (Queue.Event D)
queue_events [] = []
queue_events (queued e ∷ es) = e ∷ queue_events es
queue_events (received err packet ∷ es) = queue_events es
queue_events (deliver packet ∷ es) = queue_events es
queue_events (close ∷ es) = queue_events es
