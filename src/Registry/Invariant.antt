-- ===== src/Registry/Invariant.antt =====
-- js/core.js: the maps of class Mesh hold, for every short id, one Link object and always the same.
use mathlib.Core.List.{map-append}
use telehash_c.Prelude.{
  ℕ, zero, suc, ◌≡◌, refl, sym, ap, subst, ◌∙◌, ◌⊎◌, inl, inr, Bool, true, false, String, Option,
  none, some, List, [], ◌∷◌, ◌++◌, arith, length, get_elem?, All, Option-cases, get_elem?-snoc,
}
use telehash_c.Prelude.Maps
use telehash_c.Registry.{
  Link, Job, announce, opened, Registry, Event, report, channel, ticks, downs, short_id, new_link,
  set_c_link, modify, next_tick, on_up, on_down, on_link, on_open, run_job, tick, down, step, run,
  empty,
}
use telehash_c.Registry.Entering.{ids, JobNamed, Inv, insert_link, bury, add_job, enter}

abbrev pub Sound : Registry → Type 0
Sound t = Inv (ids t.store) t.links t.dead_links t.jobs

length-ids : (ls : List Link) → length (ids ls) ≡ length ls
length-ids [] = refl
length-ids (l ∷ ls) = ap suc (length-ids ls)

ids-modify : (i c : ℕ) (ls : List Link) → ids (modify i (set_c_link c) ls) ≡ ids ls
unfolding modify
ids-modify i c [] = refl
ids-modify zero c (l ∷ ls) = refl
ids-modify (suc i) c (l ∷ ls) = ap (λ (r : List String). l.id ∷ r) (ids-modify i c ls)

get_elem?-ids :
    (ls : List Link) (i : ℕ) (l : Link) → get_elem? ls i ≡ some l → get_elem? (ids ls) i ≡ some l.id
get_elem?-ids [] i l h = cc
get_elem?-ids (x ∷ ls) zero l h = ground arith
get_elem?-ids (x ∷ ls) (suc i) l h = get_elem?-ids ls i l h

ids-snoc : (ls : List Link) (l : Link) → ids (ls ++ l ∷ []) ≡ ids ls ++ l.id ∷ []
ids-snoc ls l = map-append _ ls (l ∷ [])

on_up-Sound :
    (hashname : String) (c : ℕ) (found : Option ℕ) (t : Registry)
    → Maps.get (short_id hashname) t.links ≡ none
    → Maps.get (short_id hashname) t.dead_links ≡ found
    → Sound t
    → Sound (on_up hashname c found t)
unfolding on_up next_tick new_link
on_up-Sound hashname c none t e f v =
    let k = short_id hashname in
    let names = ids t.store in
    let entered =
      add_job (announce k (length names) false)
        (ground (arith, get_elem?-snoc names k (length names))) (enter k e f v) in
    rw (ids-modify (length t.store) c _, ids-snoc t.store _, ← length-ids t.store) entered
on_up-Sound hashname c (some ref) t e f v =
    rw (ids-modify ref c t.store) (add_job _ (v.dead_named _ ref f) v)

on_down-Sound :
    (id : String) (found : Option ℕ) (t : Registry)
    → Maps.get id t.links ≡ found
    → Sound t
    → Sound (on_down id found t)
unfolding on_down
on_down-Sound id none t e v = v
on_down-Sound id (some ref) t e v = bury id ref (v.links_named id ref e) v

on_link-Sound :
    (hashname : String) (c : ℕ) (is_up : Bool) (t : Registry)
    → Sound t
    → Sound (on_link hashname c is_up t)
unfolding on_link
on_link-Sound hashname c false t v = on_down-Sound _ _ t refl v
on_link-Sound hashname c true t v = elim (Option-cases (Maps.get (short_id hashname) t.links)) [
  | inl e ↦ rw e (on_up-Sound hashname c _ t e refl v)
  | inr (ref, e) ↦ rw e v
]

run_job-Sound :
    (job : Job) (t : Registry) → JobNamed (ids t.store) job → Sound t → Sound (run_job job t)
unfolding run_job
run_job-Sound (announce id ref no_emit) t e v = insert_link id ref e v
run_job-Sound (opened id c_open) t e v = v

tick-Sound : (jobs : List Job) (t : Registry) → t.jobs ≡ jobs → Sound t → Sound (tick jobs t)
unfolding tick
tick-Sound [] t e v = v
tick-Sound (job ∷ jobs) t e v =
    let waiting = subst (All (JobNamed (ids t.store))) e v.jobs_named in
    run_job-Sound job (record t { jobs = jobs }) waiting.0
      (record {
        links_named = v.links_named;
        dead_named = v.dead_named;
        jobs_named = waiting.1;
        unique = v.unique;
        known = v.known;
      })

down-Sound :
    (ref : ℕ) (found : Option Link) (t : Registry)
    → get_elem? t.store ref ≡ found
    → Sound t
    → Sound (down ref found t)
unfolding down
down-Sound ref none t e v = v
down-Sound ref (some l) t e v = bury l.id ref (get_elem?-ids t.store ref l e) v

pub step-Sound : (e : Event) (t : Registry) → Sound t → Sound (step e t)
unfolding step on_open next_tick
step-Sound (report hashname c is_up) t v = on_link-Sound hashname c is_up t v
step-Sound (channel hashname c_open) t v = add_job _ tt v
step-Sound ticks t v = tick-Sound t.jobs t refl v
step-Sound (downs ref) t v = down-Sound ref _ t refl v

pub run-Sound : (es : List Event) (t : Registry) → Sound t → Sound (run es t)
unfolding run
run-Sound [] t v = v
run-Sound (e ∷ es) t v = run-Sound es (step e t) (step-Sound e t v)

pub empty-Sound : Sound empty
unfolding Maps.get
empty-Sound = record {
  links_named = λ k r h. cc;
  dead_named = λ k r h. cc;
  jobs_named = tt;
  unique = λ k r s h i. cc;
  known = λ k r h. cc;
}

-- Whatever the C library reports and whenever links go down: two Link objects of one short id are one
-- object.
pub one_object_per_id :
    (es : List Event) (r s : ℕ) (k l : Link)
    → get_elem? (run es empty).store r ≡ some k
    → get_elem? (run es empty).store s ≡ some l
    → k.id ≡ l.id
    → r ≡ s
one_object_per_id es r s k l h i e =
    (run-Sound es empty empty-Sound).unique k.id r s (get_elem?-ids _ r k h)
      (get_elem?-ids _ s l i ∙ ap some (sym e))

-- Each Link object that was ever made is in one of the two maps under its id, and neither map holds
-- another object under that id.
pub maps_hold_objects :
    (es : List Event) (r : ℕ) (l : Link)
    → get_elem? (run es empty).store r ≡ some l
    → ((Maps.get l.id (run es empty).links ≡ some r)
        ⊎ (Maps.get l.id (run es empty).dead_links ≡ some r))
      × ((s : ℕ) → Maps.get l.id (run es empty).links ≡ some s → s ≡ r)
      × ((s : ℕ) → Maps.get l.id (run es empty).dead_links ≡ some s → s ≡ r)
maps_hold_objects es r l h =
    let v = run-Sound es empty empty-Sound in
    let e = get_elem?-ids _ r l h in
    (
      v.known l.id r e,
      λ s i. v.unique l.id s r (v.links_named l.id s i) e,
      λ s i. v.unique l.id s r (v.dead_named l.id s i) e,
    )
