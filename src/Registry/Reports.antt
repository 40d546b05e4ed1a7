-- ===== src/Registry/Reports.antt =====
-- js/core.js: what a report of the C library does to a link that is new, dead or listed.
use text.Mathlib.TextPositions.{eq_refl}
use telehash_c.Prelude.{
  ℕ, zero, suc, ◌≡◌, true, false, String, none, some, List, [], ◌∷◌, ◌++◌, arith, length, get_elem?,
}
use telehash_c.Prelude.Maps
use telehash_c.Registry.{
  Link, up, link_pipe_null, link_down, link_free, Registry, report, ticks, downs, short_id,
  new_link, set_c_link, modify, next_tick, on_up, on_down, on_link, run_job, tick, down, step,
}

get_elem?-modify :
    (i : ℕ) (f : Link → Link) (ls : List Link) (l : Link)
    → get_elem? ls i ≡ some l
    → get_elem? (modify i f ls) i ≡ some (f l)
unfolding modify
get_elem?-modify i f [] l h = cc
get_elem?-modify zero f (x ∷ ls) l h = ground arith
get_elem?-modify (suc i) f (x ∷ ls) l h = get_elem?-modify i f ls l h

module _ (hashname : String) (t : Registry) where
  -- A link that is reported up while its short id is listed changes nothing, whatever its pointer.
  pub listed_up :
      (c ref : ℕ)
      → Maps.get (short_id hashname) t.links ≡ some ref
      → step (report hashname c true) t ≡ t
  unfolding step on_link
  listed_up c ref h = rw h

  -- A link that comes back is the object that it was, under the new pointer, and is listed and told
  -- 'up' on the next tick with no 'link' event.
  pub dead_comes_back :
      (c ref : ℕ) (l : Link)
      → t.jobs ≡ []
      → Maps.get (short_id hashname) t.links ≡ none
      → Maps.get (short_id hashname) t.dead_links ≡ some ref
      → get_elem? t.store ref ≡ some l
      → let u = step ticks (step (report hashname c true) t) in
        (Maps.get (short_id hashname) u.links ≡ some ref)
        × (get_elem? u.store ref ≡ some (record l { c_link = c }))
        × (u.emitted ≡ t.emitted ++ up ref ∷ [])
        × (u.calls ≡ t.calls)
  unfolding step on_link on_up next_tick tick run_job
  dead_comes_back c ref l j e f g =
      let k = short_id hashname in
      ground
        (arith, Maps.get-insert_self k ref t.links, get_elem?-modify ref (set_c_link c) t.store l g)

  -- When a link that came back under another pointer goes down, the C library is told to take down and
  -- free the pointer that the object was made with; the pointer in use is left alone.
  pub down_frees_first_pointer :
      (c ref : ℕ) (l : Link)
      → Maps.get (short_id hashname) t.links ≡ none
      → Maps.get (short_id hashname) t.dead_links ≡ some ref
      → get_elem? t.store ref ≡ some l
      → let u = step (report hashname c true) t in
        (get_elem? u.store ref ≡ some (record l { c_link = c }))
        × ((step (downs ref) u).calls
            ≡ t.calls ++ link_pipe_null l.given ∷ link_down l.given ∷ link_free l.given ∷ [])
  unfolding step on_link on_up next_tick down
  down_frees_first_pointer c ref l e f g =
      ground (arith, get_elem?-modify ref (set_c_link c) t.store l g)

  -- A link that goes up and down before the next tick is listed by that tick all the same.
  pub tick_lists_dead :
      (c c' : ℕ)
      → t.jobs ≡ []
      → Maps.get (short_id hashname) t.links ≡ none
      → Maps.get (short_id hashname) t.dead_links ≡ none
      → let d = step (report hashname c' false) (step (report hashname c true) t) in
        (Maps.get (short_id hashname) d.links ≡ none)
        × (Maps.get (short_id hashname) (step ticks d).links ≡ some (length t.store))
  unfolding step on_link on_up on_down new_link next_tick tick run_job
  tick_lists_dead c c' j e f =
      let k = short_id hashname in
      ground (
        arith,
        Maps.get-insert_self k (length t.store) t.links,
        Maps.get-delete k k (Maps.insert k (length t.store) t.links),
        eq_refl k,
        Maps.get-insert_self k (length t.store)
            (Maps.delete k (Maps.insert k (length t.store) t.links)),
      )
