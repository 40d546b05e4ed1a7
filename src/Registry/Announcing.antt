-- ===== src/Registry/Announcing.antt =====
-- js/core.js: the 'link' events of class Mesh.
use telehash_c.Prelude.{
  ℕ, zero, suc, ◌+◌, ◌≡◌, refl, sym, ap, ◌∙◌, inl, inr, Bool, true, false, String, Option, none,
  some, List, [], ◌∷◌, ◌++◌, append-nil, append_assoc, arith, length, length-append, Option-cases,
}
use telehash_c.Prelude.Maps
use telehash_c.Registry.{
  Link, Job, announce, opened, Emit, link, up, open_channel, Registry, Event, report, channel,
  ticks, downs, short_id, new_link, set_c_link, modify, next_tick, on_up, on_down, on_link, on_open,
  run_job, tick, down, step, run, empty,
}

-- The links announced by 'link' events, and those whose announcement waits.
pub announced : List Emit → List ℕ
announced [] = []
announced (link ref ∷ es) = ref ∷ announced es
announced (up ref ∷ es) = announced es
announced (open_channel ref packet ∷ es) = announced es

pub pending : List Job → List ℕ
pending [] = []
pending (announce id ref false ∷ js) = ref ∷ pending js
pending (announce id ref true ∷ js) = pending js
pending (opened id packet ∷ js) = pending js

-- The references 0, 1, …, n - 1.
abbrev pub refs : ℕ → List ℕ
refs zero = []
refs (suc n) = refs n ++ n ∷ []

announced-append : (xs ys : List Emit) → announced (xs ++ ys) ≡ announced xs ++ announced ys
unfolding announced
announced-append [] ys = refl
announced-append (link ref ∷ xs) ys = ap (λ (l : List ℕ). ref ∷ l) (announced-append xs ys)
announced-append (up ref ∷ xs) ys = announced-append xs ys
announced-append (open_channel ref packet ∷ xs) ys = announced-append xs ys

pending-append : (xs ys : List Job) → pending (xs ++ ys) ≡ pending xs ++ pending ys
unfolding pending
pending-append [] ys = refl
pending-append (announce id ref false ∷ xs) ys = ap (λ (l : List ℕ). ref ∷ l) (pending-append xs ys)
pending-append (announce id ref true ∷ xs) ys = pending-append xs ys
pending-append (opened id packet ∷ xs) ys = pending-append xs ys

length-modify : (i : ℕ) (f : Link → Link) (ls : List Link) → length (modify i f ls) ≡ length ls
unfolding modify
length-modify i f [] = refl
length-modify zero f (l ∷ ls) = refl
length-modify (suc i) f (l ∷ ls) = ap suc (length-modify i f ls)

abbrev InOrder : Registry → Type 0
InOrder t = announced t.emitted ++ pending t.jobs ≡ refs (length t.store)

-- Jobs that announce nothing.
next_tick-InOrder :
    (job : Job) (t : Registry) → pending (job ∷ []) ≡ [] → InOrder t → InOrder (next_tick job t)
unfolding next_tick
next_tick-InOrder job t e v =
    ap (λ (l : List ℕ). announced t.emitted ++ l)
      (pending-append t.jobs (job ∷ []) ∙ rw e (append-nil _))
    ∙ v

on_up-InOrder :
    (hashname : String) (c : ℕ) (found : Option ℕ) (t : Registry)
    → InOrder t
    → InOrder (on_up hashname c found t)
unfolding on_up new_link next_tick pending
on_up-InOrder hashname c none t v =
    let one_more : suc (length t.store) ≡ length t.store + 1 = omega arith in
    rw
      (
        length-modify (length t.store) (set_c_link c) _,
        length-append t.store _,
        pending-append t.jobs _,
      )
      (sym (append_assoc (announced t.emitted) (pending t.jobs) (length t.store ∷ []))
        ∙ ap (λ (l : List ℕ). l ++ length t.store ∷ []) v
        ∙ ap refs one_more)
on_up-InOrder hashname c (some ref) t v =
    rw (length-modify ref (set_c_link c) t.store, pending-append t.jobs _) (rw append-nil v)

on_down-InOrder :
    (id : String) (found : Option ℕ) (t : Registry) → InOrder t → InOrder (on_down id found t)
unfolding on_down
on_down-InOrder id none t v = v
on_down-InOrder id (some ref) t v = v

on_link-InOrder :
    (hashname : String) (c : ℕ) (is_up : Bool) (t : Registry)
    → InOrder t
    → InOrder (on_link hashname c is_up t)
unfolding on_link
on_link-InOrder hashname c false t v = on_down-InOrder _ _ t v
on_link-InOrder hashname c true t v = elim (Option-cases (Maps.get (short_id hashname) t.links)) [
  | inl e ↦ rw e (on_up-InOrder hashname c _ t v)
  | inr (ref, e) ↦ rw e v
]

run_job-announced :
    (job : Job) (t : Registry)
    → announced (run_job job t).emitted ≡ announced t.emitted ++ pending (job ∷ [])
unfolding run_job announced pending
run_job-announced (announce id ref false) t = announced-append t.emitted _
run_job-announced (announce id ref true) t = announced-append t.emitted _
run_job-announced (opened id packet) t = announced-append t.emitted _

run_job-store : (job : Job) (t : Registry) → (run_job job t).store ≡ t.store
unfolding run_job
run_job-store (announce id ref no_emit) t = refl
run_job-store (opened id packet) t = refl

run_job-jobs : (job : Job) (t : Registry) → (run_job job t).jobs ≡ t.jobs
unfolding run_job
run_job-jobs (announce id ref no_emit) t = refl
run_job-jobs (opened id packet) t = refl

tick-InOrder : (jobs : List Job) (t : Registry) → t.jobs ≡ jobs → InOrder t → InOrder (tick jobs t)
unfolding tick
tick-InOrder [] t e v = v
tick-InOrder (job ∷ jobs) t e v =
    let u = record t { jobs = jobs } in
    rw (run_job-announced job u, run_job-store job u, run_job-jobs job u)
      (append_assoc (announced t.emitted) (pending (job ∷ [])) (pending jobs)
        ∙ ap (λ (l : List ℕ). announced t.emitted ++ l)
            (sym (pending-append (job ∷ []) jobs) ∙ ap pending (sym e))
        ∙ v)

down-InOrder :
    (ref : ℕ) (found : Option Link) (t : Registry) → InOrder t → InOrder (down ref found t)
unfolding down
down-InOrder ref none t v = v
down-InOrder ref (some l) t v = v

step-InOrder : (e : Event) (t : Registry) → InOrder t → InOrder (step e t)
unfolding step on_open pending
step-InOrder (report hashname c is_up) t v = on_link-InOrder hashname c is_up t v
step-InOrder (channel hashname packet) t v = next_tick-InOrder _ t refl v
step-InOrder ticks t v = tick-InOrder t.jobs t refl v
step-InOrder (downs ref) t v = down-InOrder ref _ t v

run-InOrder : (es : List Event) (t : Registry) → InOrder t → InOrder (run es t)
unfolding run
run-InOrder [] t v = v
run-InOrder (e ∷ es) t v = run-InOrder es (step e t) (step-InOrder e t v)

-- 'link' is emitted once for each Link object and no other time, in the order in which the objects
-- were made: what was emitted, followed by what waits for the next ticks, is 0, 1, … up to the number
-- of objects. A link that comes back is not announced again.
pub link_once :
    (es : List Event)
    → announced (run es empty).emitted ++ pending (run es empty).jobs
      ≡ refs (length (run es empty).store)
unfolding announced pending
link_once es = run-InOrder es empty refl

abbrev pub all_ticks : List Job → List Event
all_ticks [] = []
all_ticks (job ∷ jobs) = ticks ∷ all_ticks jobs

run-all_ticks :
    (jobs : List Job) (t : Registry)
    → t.jobs ≡ jobs
    → ((run (all_ticks jobs) t).jobs ≡ []) × ((run (all_ticks jobs) t).store ≡ t.store)
unfolding run step tick
run-all_ticks [] t e = (e, refl)
run-all_ticks (job ∷ jobs) t e =
    let u = run_job job (record t { jobs = jobs }) in
    let (none_left, same) = run-all_ticks jobs u (run_job-jobs job _) in
    rw e (none_left, same ∙ run_job-store job _)

-- Once the queue of `process.nextTick` has run, every Link object has been announced.
pub all_ticks_announce :
    (es : List Event)
    → let t = run es empty in announced (run (all_ticks t.jobs) t).emitted ≡ refs (length t.store)
unfolding announced pending
all_ticks_announce es =
    let t = run es empty in
    let (none_left, same) = run-all_ticks t.jobs t refl in
    sym (append-nil _)
    ∙ ap (λ (l : List Job). announced (run (all_ticks t.jobs) t).emitted ++ pending l)
        (sym none_left)
    ∙ run-InOrder (all_ticks t.jobs) t (run-InOrder es empty refl)
    ∙ ap (λ (ls : List Link). refs (length ls)) same
