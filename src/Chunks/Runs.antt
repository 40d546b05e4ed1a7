-- ===== src/Chunks/Runs.antt =====
-- js/core.js, class Chunks: the queue and the pipe over any run of all events.
use telehash_c.Prelude.{
  ℕ, ◌≤◌, ◌≡◌, refl, sym, ◌∙◌, ap, Bool, true, false, Option, none, some, List, [], ◌∷◌, ◌++◌,
  append-nil, arith, length, All,
}
use telehash_c.Native.{MeshApi}
use telehash_c.Chunks.Queue
use telehash_c.Chunks.{
  Chunks, Event, received, queued, deliver, close, pipe, pipe_all, on_close, establish, attach,
  found, on_receive, step, run, start, queue_events,
}
use telehash_c.Chunks.Delivery.{OneAtATime, run-OneAtATime, run-empty-order}
use telehash_c.Chunks.Draining.{
  Healthy, empty-Awake, run-Awake, rounds, rounds_drain, emitted-rounds,
}

module _ {M P D : Type 0} where
  queue-pipe : (p : Option P) (t : Chunks M P D) → (pipe p t).queue ≡ t.queue
  unfolding pipe
  queue-pipe none t = refl
  queue-pipe (some p) t = refl

  queue-pipe_all : (ps : List P) (t : Chunks M P D) → (pipe_all ps t).queue ≡ t.queue
  unfolding pipe_all
  queue-pipe_all [] t = refl
  queue-pipe_all (p ∷ ps) t = queue-pipe_all ps _ ∙ queue-pipe (some p) t

  queue-on_close : (linked : Bool) (t : Chunks M P D) → (on_close linked t).queue ≡ t.queue
  unfolding on_close
  queue-on_close false t = refl
  queue-on_close true t = refl

module _ {M P : Type 0} (ma : MeshApi M P) (D : Type 0) where
  queue-attach :
      (linked : Bool) (link : Option ℕ) (t : Chunks M P D)
      → (attach ma D linked link t).queue ≡ t.queue
  unfolding attach establish
  queue-attach true link t = refl
  queue-attach false none t = refl
  queue-attach false (some link) t = queue-pipe_all _ _

  queue-found : (r : M × Option ℕ × List P) (t : Chunks M P D) → (found ma D r t).queue ≡ t.queue
  unfolding found
  queue-found (m, link, ps) t = queue-attach _ link _ ∙ queue-pipe_all ps _

  queue-on_receive :
      (err : Bool) (packet : Option P) (t : Chunks M P D)
      → (on_receive ma D err packet t).queue ≡ t.queue
  unfolding on_receive
  queue-on_receive true packet t = refl
  queue-on_receive false none t = refl
  queue-on_receive false (some packet) t = queue-found _ t

  -- The packets and the mesh do not touch the write queue.
  queue-run :
      (es : List (Event P D)) (t : Chunks M P D)
      → (run ma D es t).queue ≡ Queue.run (queue_events es) t.queue
  unfolding run step queue_events Queue.run
  queue-run [] t = refl
  queue-run (queued e ∷ es) t = queue-run es _
  queue-run (received err packet ∷ es) t =
      queue-run es _ ∙ ap (Queue.run (queue_events es)) (queue-on_receive err packet t)
  queue-run (deliver packet ∷ es) t =
      queue-run es _ ∙ ap (Queue.run (queue_events es)) (queue-pipe packet t)
  queue-run (close ∷ es) t =
      queue-run es _ ∙ ap (Queue.run (queue_events es)) (queue-on_close t.linked t)

  queue-start : (m : M) → (start ma D m).queue ≡ Queue.empty
  unfolding start
  queue-start m = queue-pipe _ _

  queue-run-start :
      (m : M) (es : List (Event P D))
      → (run ma D es (start ma D m)).queue ≡ Queue.run (queue_events es) Queue.empty
  queue-run-start m es = queue-run es _ ∙ ap (Queue.run (queue_events es)) (queue-start m)

  -- Over any run, errors included: the chunks written, followed by the chunks that wait, are the
  -- chunks that were emitted, in their order; and at most one write or wait for 'drain' is under way,
  -- none unless `flushing` is set.
  pub run-start_in_order :
      (m : M) (es : List (Event P D))
      → ((run ma D es (start ma D m)).queue.written ++ (run ma D es (start ma D m)).queue.datas
          ≡ Queue.emitted (queue_events es))
        × OneAtATime (run ma D es (start ma D m)).queue
  run-start_in_order m es = rw (queue-run-start m es) (
    run-empty-order (queue_events es),
    run-OneAtATime (queue_events es) Queue.empty (ground arith),
  )

  emitted-append :
      (xs ys : List (Queue.Event D))
      → Queue.emitted (xs ++ ys) ≡ Queue.emitted xs ++ Queue.emitted ys
  unfolding Queue.emitted
  emitted-append [] ys = refl
  emitted-append (Queue.chunk d ∷ xs) ys = ap (λ (l : List D). d ∷ l) (emitted-append xs ys)
  emitted-append (Queue.write_done err ∷ xs) ys = emitted-append xs ys
  emitted-append (Queue.drain_done err ∷ xs) ys = emitted-append xs ys
  emitted-append (Queue.timeout ∷ xs) ys = emitted-append xs ys

  run-append :
      (xs ys : List (Queue.Event D)) (q : Queue.Queue D)
      → Queue.run (xs ++ ys) q ≡ Queue.run ys (Queue.run xs q)
  unfolding Queue.run
  run-append [] ys q = refl
  run-append (x ∷ xs) ys q = run-append xs ys _

  drained :
      (xs : List (Queue.Event D)) (k : ℕ)
      → All Healthy xs
      → length (Queue.run xs Queue.empty).datas ≤ k
      → (Queue.run (rounds k) (Queue.run xs Queue.empty)).written ≡ Queue.emitted xs
  drained xs k o h =
      let q = Queue.run xs Queue.empty in
      let gone = rounds_drain k q (run-Awake xs Queue.empty o empty-Awake) h in
      sym (append-nil _)
      ∙ ap (λ (l : List D). (Queue.run (rounds k) q).written ++ l) (sym gone)
      ∙ ap (λ (p : Queue.Queue D). p.written ++ p.datas)
          (sym (run-append xs (rounds k) Queue.empty))
      ∙ run-empty-order (xs ++ rounds k)
      ∙ emitted-append xs (rounds k)
      ∙ ap (λ (l : List D). Queue.emitted xs ++ l) (emitted-rounds k)
      ∙ append-nil _

  -- As long as no callback reports an error, nothing waits for ever: after one round of a write that
  -- ends, a drain and a timer for each chunk that waits, what was written is all that was emitted.
  pub everything_written :
      (m : M) (es : List (Event P D)) (k : ℕ)
      → All Healthy (queue_events es)
      → length (run ma D es (start ma D m)).queue.datas ≤ k
      → (Queue.run (rounds k) (run ma D es (start ma D m)).queue).written
        ≡ Queue.emitted (queue_events es)
  everything_written m es k o h =
      rw (queue-run-start m es) (drained (queue_events es) k o (rw (queue-run-start m es) at h))
