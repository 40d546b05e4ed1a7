-- ===== src/Registry/Tests.antt =====
-- Runs of the registry.
use telehash_c.Prelude.{
  ℕ, ◌≡◌, refl, ◌⊎◌, true, false, String, none, some, List, [], ◌∷◌, ◌++◌, length,
}
use telehash_c.Prelude.Maps
use telehash_c.Registry.{
  Link, link, up, open_channel, link_pipe_null, link_down, link_free, Registry, Event, report,
  channel, ticks, downs, short_id, new_link, modify, next_tick, on_up, on_down, on_link, on_open,
  run_job, tick, down, step, run, empty,
}
use telehash_c.Registry.Invariant.{one_object_per_id, maps_hold_objects}
use telehash_c.Registry.Announcing.{
  announced, pending, refs, all_ticks, link_once, all_ticks_announce,
}
use telehash_c.Registry.Reports.{dead_comes_back, down_frees_first_pointer, tick_lists_dead}

abbrev alice : String
alice = "aiw4cwmhicwp4lfbsecbdwyr6ymx6xqsli"

abbrev bob : String
bob = "bobbbbbbicwp4lfbsecbdwyr6ymx6xqsli"

-- Two links come, one goes down and comes back under another pointer.
abbrev history : List Event
history =
    report alice 100 true
    ∷ report bob 200 true
    ∷ ticks
    ∷ ticks
    ∷ downs 0
    ∷ report alice 300 true
    ∷ channel bob 7
    ∷ ticks
    ∷ ticks
    ∷ []

after : List Event → Registry
unfolding run step on_link on_up on_down new_link modify next_tick on_open run_job tick down
    Maps.get Maps.insert Maps.delete
after es = run es empty

history_runs :
    ((after history).emitted ≡ link 0 ∷ up 0 ∷ link 1 ∷ up 1 ∷ up 0 ∷ open_channel (some 1) 7 ∷ [])
    × (Maps.get "aiw4cwmh" (after history).links ≡ some 0)
    × ((after history).calls ≡ link_pipe_null 100 ∷ link_down 100 ∷ link_free 100 ∷ [])
    × (length (after history).store ≡ 2)
unfolding after
history_runs = (refl, refl, refl, refl)

abbrev alice_link : Link
alice_link = record { given = 100; c_link = 300; hashname = alice; id = "aiw4cwmh" }

one_object_per_id_example : ◌≡◌ {A = ℕ} 0 0
unfolding after
one_object_per_id_example = one_object_per_id history 0 0 alice_link alice_link refl refl refl

maps_hold_objects_case :
    ((Maps.get "aiw4cwmh" (run history empty).links ≡ some 0)
      ⊎ (Maps.get "aiw4cwmh" (run history empty).dead_links ≡ some 0))
    × ((s : ℕ) → Maps.get "aiw4cwmh" (run history empty).links ≡ some s → s ≡ 0)
    × ((s : ℕ) → Maps.get "aiw4cwmh" (run history empty).dead_links ≡ some s → s ≡ 0)
maps_hold_objects_case = maps_hold_objects history 0 alice_link (unfold after in refl)

link_once_example :
    announced (run history empty).emitted ++ pending (run history empty).jobs
    ≡ refs (length (run history empty).store)
link_once_example = link_once history

all_ticks_announce_case :
    announced (run (all_ticks (run history empty).jobs) (run history empty)).emitted
    ≡ refs (length (run history empty).store)
all_ticks_announce_case = all_ticks_announce history

-- Alice's link is down and nothing waits.
gone : Registry
unfolding after
gone = after (report alice 100 true ∷ ticks ∷ downs 0 ∷ [])

abbrev first_link : Link
first_link = record { given = 100; c_link = 100; hashname = alice; id = "aiw4cwmh" }

dead_comes_back_case :
    (step ticks (step (report alice 300 true) gone)).emitted ≡ gone.emitted ++ up 0 ∷ []
dead_comes_back_case =
    (dead_comes_back alice gone 300 0 first_link (unfold gone in refl) (unfold gone in refl)
      (unfold gone in refl) (unfold gone in refl)).2

down_frees_first_pointer_example :
    (step (downs 0) (step (report alice 300 true) gone)).calls
    ≡ gone.calls ++ link_pipe_null 100 ∷ link_down 100 ∷ link_free 100 ∷ []
down_frees_first_pointer_example =
    (down_frees_first_pointer alice gone 300 0 first_link (unfold gone in refl)
      (unfold gone in refl) (unfold gone in refl)).1

tick_lists_dead_example :
    let d = step (report bob 200 false) (step (report bob 200 true) gone) in
    (Maps.get (short_id bob) d.links ≡ none)
    × (Maps.get (short_id bob) (step ticks d).links ≡ some (length gone.store))
tick_lists_dead_example =
    tick_lists_dead bob gone 200 200 (unfold gone in refl) (unfold gone in refl)
      (unfold gone in refl)
