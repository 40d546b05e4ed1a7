-- ===== src/Chunks/Draining.antt =====
-- js/core.js, class Chunks: while no callback reports an error, every chunk is written in the end.
use telehash_c.Prelude.{
  ℕ, zero, suc, ◌+◌, ◌≤◌, ◌<◌, ◌≡◌, refl, ◌∙◌, ap, ◌⊎◌, inl, inr, true, false, List, [], ◌∷◌, arith,
  length, All, Bool-cases, nil_of_length, ◌-◌,
}
use telehash_c.Chunks.Queue.{
  Queue, Event, chunk, write_done, drain_done, timeout, empty, write_first, flush, on_chunk,
  on_written, on_drained, on_timeout, step, run, emitted, flush_set, flush_clear,
}

-- No write and no drain fails.
abbrev pub Healthy : {D : Type 0} → Event D → Type 0
Healthy (chunk d) = Unit
Healthy (write_done err) = err ≡ false
Healthy (drain_done err) = err ≡ false
Healthy timeout = Unit

-- `flushing` has a callback ahead of it, and chunks that wait have that or a timer.
pub record Awake {D : Type 0} (q : Queue D) : Type 0 where
  pub clean : q.flushing ≡ true → q.writing + q.draining ≡ 1
  pub idle : q.flushing ≡ false → q.writing + q.draining ≡ 0
  pub soon : 0 < length q.datas → (q.flushing ≡ true) ⊎ (0 < q.timers)

-- The write that is under way ends well, the stream drains, and the timer fires.
abbrev pub rounds : {D : Type 0} → ℕ → List (Event D)
rounds zero = []
rounds (suc k) = write_done false ∷ drain_done false ∷ timeout ∷ rounds k

module _ {D : Type 0} where
  abbrev Clean : Queue D → Type 0
  Clean q =
      (q.flushing ≡ true → q.writing + q.draining ≡ 1)
      × (q.flushing ≡ false → q.writing + q.draining ≡ 0)

  write_first-Awake :
      (ds : List D) (q : Queue D)
      → q.datas ≡ ds
      → q.flushing ≡ false
      → Clean q
      → Awake (write_first ds q)
  unfolding write_first
  write_first-Awake [] q e f v = ground arith
  write_first-Awake (d ∷ ds) q e f v = ground arith

  flush-Awake : (q : Queue D) → Clean q → Awake (flush q)
  unfolding flush
  flush-Awake q v = elim (Bool-cases q.flushing) [
    | inl set ↦ rw (flush_set q set) (ground arith)
    | inr clear ↦ rw (flush_clear q clear) (write_first-Awake q.datas q refl clear v)
  ]

  on_written-Awake : (n : ℕ) (q : Queue D) → n ≡ q.writing → Awake q → Awake (on_written n false q)
  unfolding on_written
  on_written-Awake zero q e v = v
  on_written-Awake (suc n) q e v = ground arith

  on_drained-Awake : (n : ℕ) (q : Queue D) → n ≡ q.draining → Awake q → Awake (on_drained n false q)
  unfolding on_drained
  on_drained-Awake zero q e v = v
  on_drained-Awake (suc n) q e v = ground arith

  on_timeout-Awake : (n : ℕ) (q : Queue D) → Awake q → Awake (on_timeout n q)
  unfolding on_timeout
  on_timeout-Awake zero q v = v
  on_timeout-Awake (suc n) q v = flush-Awake _ (v.clean, v.idle)

  step-Awake : (e : Event D) (q : Queue D) → Healthy e → Awake q → Awake (step e q)
  unfolding step on_chunk
  step-Awake (chunk d) q o v = flush-Awake _ (v.clean, v.idle)
  step-Awake (write_done err) q o v = rw o (on_written-Awake q.writing q refl v)
  step-Awake (drain_done err) q o v = rw o (on_drained-Awake q.draining q refl v)
  step-Awake timeout q o v = on_timeout-Awake q.timers q v

  pub run-Awake : (es : List (Event D)) (q : Queue D) → All Healthy es → Awake q → Awake (run es q)
  unfolding run
  run-Awake [] q o v = v
  run-Awake (e ∷ es) q o v = run-Awake es _ o.1 (step-Awake e q o.0 v)

  pub empty-Awake : Awake {D = D} empty
  empty-Awake = ground arith

  abbrev round : Queue D → Queue D
  round q = step timeout (step (drain_done false) (step (write_done false) q))

  write_first_fewer :
      (ds : List D) (q : Queue D) → q.datas ≡ ds → length (write_first ds q).datas ≡ length ds - 1
  unfolding write_first
  write_first_fewer [] q e = ground arith
  write_first_fewer (d ∷ ds) q e = ground arith

  on_timeout_fewer :
      (n : ℕ) (q : Queue D)
      → q.flushing ≡ false
      → (0 < length q.datas → 0 < n)
      → length (on_timeout n q).datas ≡ length q.datas - 1
  unfolding on_timeout
  on_timeout_fewer zero q f h = grind arith
  on_timeout_fewer (suc n) q f h =
      let p = record q { timers = n } in rw (flush_clear p f) (write_first_fewer q.datas p refl)

  settled : Queue D → Queue D
  settled q = step (drain_done false) (step (write_done false) q)

  settled_lem :
      (w r : ℕ) (q : Queue D)
      → w ≡ q.writing
      → r ≡ q.draining
      → Awake q
      → ((settled q).flushing ≡ false)
        × ((settled q).datas ≡ q.datas)
        × (0 < length q.datas → 0 < (settled q).timers)
  unfolding settled step on_written on_drained
  settled_lem w r q e e' v = (ground arith, ground arith, λ h. ground arith)

  -- A round writes one chunk, if one waits.
  round_fewer : (q : Queue D) → Awake q → length (round q).datas ≡ length q.datas - 1
  unfolding settled step
  round_fewer q v =
      let (clear, same, timer) = settled_lem q.writing q.draining q refl refl v in
      on_timeout_fewer _ (settled q) clear (rw same timer) ∙ ap (λ (l : List D). length l - 1) same

  round-Awake : (q : Queue D) → Awake q → Awake (round q)
  round-Awake q v =
      step-Awake timeout _ tt
        (step-Awake (drain_done false) _ refl (step-Awake (write_done false) q refl v))

  pub rounds_drain :
      (k : ℕ) (q : Queue D) → Awake q → length q.datas ≤ k → (run (rounds k) q).datas ≡ []
  unfolding run
  rounds_drain zero q v h = nil_of_length q.datas h
  rounds_drain (suc k) q v h =
      rounds_drain k (round q) (round-Awake q v) (omega (arith, round_fewer q v))

  pub emitted-rounds : (k : ℕ) → emitted (rounds {D = D} k) ≡ []
  unfolding emitted
  emitted-rounds zero = refl
  emitted-rounds (suc k) = emitted-rounds k
