-- ===== src/Policy.antt =====
-- js/core.js: which discovered mesh nodes class Mesh takes in. Two callbacks see each discovery: the
-- global one that `start` sets, and one that each Frames object sets.
pub mod Decisions
mod Tests
use telehash_c.Prelude.{
  ℕ, suc, ◌-◌, Bool, true, false, ◌&&◌, ◌||◌, String, List, [], ◌∷◌, length, ◌==◌, if◌then◌else◌,
}
use telehash_c.Prelude.Maps

pub record Policy : Type 0 where
  pub accepted : List String
  pub rejected : List String
  -- `listenerCount('discover')`
  pub listeners : ℕ

abbrev pub fresh : Policy
fresh = record { accepted = []; rejected = []; listeners = 0 }

-- `get _open()`
unfoldable pub is_open : Policy → Bool
is_open p = length p.accepted == 0 && p.listeners == 0

unfoldable pub accept : String → Policy → Policy
accept hashname p = record p { accepted = Maps.add p.accepted hashname }

unfoldable pub reject : String → Policy → Policy
reject hashname p = record p { rejected = Maps.add p.rejected hashname }

-- The application's `on('discover', …)` and the removal of such a listener.
unfoldable pub listen : Policy → Policy
listen p = record p { listeners = suc p.listeners }

unfoldable pub unlisten : Policy → Policy
unlisten p = record p { listeners = p.listeners - 1 }

-- What a callback does: it returns null, it returns `mesh_add(…)`, or it returns null and emits
-- 'discover' on the next tick.
pub data Answer : Type 0 where
  ignore add offer : Answer

-- The callback of `mesh_on_discover(this._mesh, "*", …)` in `start`.
unfoldable pub global_answer : String → Policy → Answer
unfolding is_open
global_answer hashname p =
    if Maps.contains p.rejected hashname
    then ignore
    else (if is_open p || Maps.contains p.accepted hashname then add else ignore)

-- The callback of `mesh_on_discover(Mesh._mesh, "aaa", …)` in class Frames.
unfoldable pub frames_answer : String → Policy → Answer
unfolding is_open
frames_answer hashname p =
    if Maps.contains p.rejected hashname
    then ignore
    else (if is_open p || Maps.contains p.accepted hashname then ignore else offer)

-- What the application may do.
pub data Change : Type 0 where
  accepts : String → Change
  rejects : String → Change
  listens : Change
  unlistens : Change

unfoldable pub change : Change → Policy → Policy
change (accepts hashname) p = accept hashname p
change (rejects hashname) p = reject hashname p
change listens p = listen p
change unlistens p = unlisten p

unfoldable pub run : List Change → Policy → Policy
run [] p = p
run (c ∷ cs) p = run cs (change c p)
