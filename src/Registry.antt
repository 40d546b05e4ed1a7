-- ===== src/Registry.antt =====
-- js/core.js: class Link, and the maps of class Mesh that hold its objects. Links are shared by both
-- maps, the queue of `process.nextTick` and the application, so the objects stand in a store and a
-- reference is a position in it.
mod Entering
pub mod Invariant
pub mod Announcing
pub mod Reports
mod Tests
use Prim.Native.String.{slice}
use telehash_c.Prelude.{
  ℕ, zero, suc, Bool, true, false, String, Option, none, some, List, [], ◌∷◌, ◌++◌, length,
  get_elem?, set, if◌then◌else◌,
}
use telehash_c.Prelude.Maps

-- `substr(0,8)`: hashnames are base32 texts, a byte for each character.
abbrev pub short_id : String → String
short_id hashname = slice hashname 0 8

pub record Link : Type 0 where
  -- The constructor's parameter, which the handler of 'down' closes over, and `_c_link`.
  pub given : ℕ
  pub c_link : ℕ
  pub hashname : String
  pub id : String

-- What waits for `process.nextTick`: the announcement of a link, and an 'open' event.
pub data Job : Type 0 where
  announce : String → ℕ → Bool → Job
  opened : String → ℕ → Job

-- Events emitted to the application, by reference.
pub data Emit : Type 0 where
  link : ℕ → Emit
  up : ℕ → Emit
  open_channel : Option ℕ → ℕ → Emit

-- Calls of the C library on a pointer.
pub data Call : Type 0 where
  link_pipe_null : ℕ → Call
  link_down : ℕ → Call
  link_free : ℕ → Call

pub record Registry : Type 0 where
  pub store : List Link
  pub links : List (String × ℕ)
  pub dead_links : List (String × ℕ)
  pub jobs : List Job
  pub emitted : List Emit
  pub calls : List Call

abbrev pub empty : Registry
empty = record { store = []; links = []; dead_links = []; jobs = []; emitted = []; calls = [] }

-- The constructor of Link; its reference is the length of the store before.
unfoldable pub new_link : String → ℕ → Registry → Registry
new_link hashname c t = record t {
  store =
      t.store ++ record { given = c; c_link = c; hashname = hashname; id = short_id hashname } ∷ [];
  links = Maps.insert (short_id hashname) (length t.store) t.links;
}

-- `_link.c_link(c)`
abbrev pub set_c_link : ℕ → Link → Link
set_c_link c l = record l { c_link = c }

unfoldable pub modify : ℕ → (Link → Link) → List Link → List Link
modify i f [] = []
modify zero f (l ∷ ls) = f l ∷ ls
modify (suc i) f (l ∷ ls) = l ∷ modify i f ls

unfoldable pub next_tick : Job → Registry → Registry
next_tick job t = record t { jobs = t.jobs ++ job ∷ [] }

-- The callback of `mesh_on_link` on a link that is up and not listed: a dead link comes back as the
-- same object, and any other gets a new one.
unfoldable pub on_up : String → ℕ → Option ℕ → Registry → Registry
on_up hashname c none t =
    let t' = new_link hashname c t in
    next_tick (announce (short_id hashname) (length t.store) false)
      (record t' { store = modify (length t.store) (set_c_link c) t'.store })
on_up hashname c (some ref) t =
    next_tick (announce (short_id hashname) ref true)
      (record t { store = modify ref (set_c_link c) t.store })

-- The same callback on a link that is down.
unfoldable pub on_down : String → Option ℕ → Registry → Registry
on_down id none t = t
on_down id (some ref) t = record t {
  dead_links = Maps.insert id ref t.dead_links;
  links = Maps.delete id t.links;
}

-- `mesh_on_link(this._mesh, "*", (c_link) => …)`, with the link's hashname and the answer of `link_up`.
-- The two conditions exclude one another.
unfoldable pub on_link : String → ℕ → Bool → Registry → Registry
on_link hashname c false t = on_down (short_id hashname) (Maps.get (short_id hashname) t.links) t
on_link hashname c true t =
    if Maps.has (short_id hashname) t.links
    then t
    else on_up hashname c (Maps.get (short_id hashname) t.dead_links) t

-- `mesh_on_open`: the packet is a pointer.
unfoldable pub on_open : String → ℕ → Registry → Registry
on_open hashname c_open t = next_tick (opened (short_id hashname) c_open) t

abbrev pub link_event : Bool → ℕ → List Emit
link_event true ref = []
link_event false ref = link ref ∷ []

unfoldable pub run_job : Job → Registry → Registry
run_job (announce id ref no_emit) t = record t {
  links = Maps.insert id ref t.links;
  emitted = t.emitted ++ (link_event no_emit ref ++ up ref ∷ []);
}
run_job (opened id c_open) t = record t {
  emitted = t.emitted ++ open_channel (Maps.get id t.links) c_open ∷ [];
}

unfoldable pub tick : List Job → Registry → Registry
tick [] t = t
tick (job ∷ jobs) t = run_job job (record t { jobs = jobs })

-- The handler of a link's 'down' event, set by the constructor.
unfoldable pub down : ℕ → Option Link → Registry → Registry
down ref none t = t
down ref (some l) t = record t {
  links = Maps.delete l.id t.links;
  dead_links = Maps.insert l.id ref t.dead_links;
  calls = t.calls ++ link_pipe_null l.given ∷ link_down l.given ∷ link_free l.given ∷ [];
}

-- What the C library, the event loop, and the streams or the application may do.
pub data Event : Type 0 where
  report : String → ℕ → Bool → Event
  channel : String → ℕ → Event
  ticks : Event
  downs : ℕ → Event

unfoldable pub step : Event → Registry → Registry
step (report hashname c is_up) t = on_link hashname c is_up t
step (channel hashname c_open) t = on_open hashname c_open t
step ticks t = tick t.jobs t
step (downs ref) t = down ref (get_elem? t.store ref) t

unfoldable pub run : List Event → Registry → Registry
run [] t = t
run (e ∷ es) t = run es (step e t)
