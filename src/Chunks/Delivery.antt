-- ===== src/Chunks/Delivery.antt =====
-- js/core.js, class Chunks: the chunks are written once each, in order, one at a time.
use telehash_c.Prelude.{
  ℕ, zero, suc, ◌+◌, ◌≤◌, ◌≡◌, refl, sym, ◌∙◌, ap, inl, inr, Bool, true, false, List, [], ◌∷◌, ◌++◌,
  append-nil, append_assoc, snoc_append, arith, Bool-cases,
}
use telehash_c.Chunks.Queue.{
  Queue, Event, chunk, write_done, drain_done, timeout, empty, write_first, flush, on_chunk,
  on_written, on_drained, on_timeout, step, run, emitted, flush_set, flush_clear,
}

-- One write or one wait for 'drain' at most, and only behind `flushing`.
pub record OneAtATime {D : Type 0} (q : Queue D) : Type 0 where
  pub one : q.writing + q.draining ≤ 1
  pub idle : q.flushing ≡ false → q.writing + q.draining ≡ 0

module _ {D : Type 0} where
  abbrev in_order : Queue D → List D
  in_order q = q.written ++ q.datas

  write_first-order :
      (ds : List D) (q : Queue D) → q.datas ≡ ds → in_order (write_first ds q) ≡ in_order q
  unfolding write_first
  write_first-order [] q e = refl
  write_first-order (d ∷ ds) q e = rw (e, snoc_append q.written d ds)

  flush-order : (q : Queue D) → in_order (flush q) ≡ in_order q
  unfolding flush
  flush-order q = ground (arith, write_first-order q.datas q refl)

  on_written-order : (n : ℕ) (err : Bool) (q : Queue D) → in_order (on_written n err q) ≡ in_order q
  unfolding on_written
  on_written-order zero err q = refl
  on_written-order (suc n) true q = refl
  on_written-order (suc n) false q = refl

  on_drained-order : (n : ℕ) (err : Bool) (q : Queue D) → in_order (on_drained n err q) ≡ in_order q
  unfolding on_drained
  on_drained-order zero err q = refl
  on_drained-order (suc n) true q = refl
  on_drained-order (suc n) false q = refl

  on_timeout-order : (n : ℕ) (q : Queue D) → in_order (on_timeout n q) ≡ in_order q
  unfolding on_timeout
  on_timeout-order zero q = refl
  on_timeout-order (suc n) q = flush-order _

  run-order : (es : List (Event D)) (q : Queue D) → in_order (run es q) ≡ in_order q ++ emitted es
  unfolding run step emitted on_chunk
  run-order [] q = sym (append-nil _)
  run-order (chunk d ∷ es) q =
      run-order es _
      ∙ ap (λ (l : List D). l ++ emitted es)
          (flush-order (record q { datas = q.datas ++ d ∷ [] })
            ∙ sym (append_assoc q.written q.datas (d ∷ [])))
      ∙ snoc_append (in_order q) d (emitted es)
  run-order (write_done err ∷ es) q =
      run-order es _ ∙ ap (λ (l : List D). l ++ emitted es) (on_written-order q.writing err q)
  run-order (drain_done err ∷ es) q =
      run-order es _ ∙ ap (λ (l : List D). l ++ emitted es) (on_drained-order q.draining err q)
  run-order (timeout ∷ es) q =
      run-order es _ ∙ ap (λ (l : List D). l ++ emitted es) (on_timeout-order q.timers q)

  -- Whatever the stream does: the chunks written, followed by those that wait, are the chunks emitted,
  -- in their order; none is lost, doubled or overtaken.
  pub run-empty-order :
      (es : List (Event D)) → (run es empty).written ++ (run es empty).datas ≡ emitted es
  run-empty-order es = run-order es empty

  write_first-OneAtATime :
      (ds : List D) (q : Queue D)
      → q.flushing ≡ false
      → OneAtATime q
      → OneAtATime (write_first ds q)
  unfolding write_first
  write_first-OneAtATime [] q f v = v
  write_first-OneAtATime (d ∷ ds) q f v = ground arith

  flush-OneAtATime : (q : Queue D) → OneAtATime q → OneAtATime (flush q)
  unfolding flush
  flush-OneAtATime q v = elim (Bool-cases q.flushing) [
    | inl set ↦ rw (flush_set q set) v
    | inr clear ↦ rw (flush_clear q clear) (write_first-OneAtATime q.datas q clear v)
  ]

  on_written-OneAtATime :
      (n : ℕ) (err : Bool) (q : Queue D)
      → n ≡ q.writing
      → OneAtATime q
      → OneAtATime (on_written n err q)
  unfolding on_written
  on_written-OneAtATime zero err q e v = v
  on_written-OneAtATime (suc n) true q e v = ground arith
  on_written-OneAtATime (suc n) false q e v = ground arith

  on_drained-OneAtATime :
      (n : ℕ) (err : Bool) (q : Queue D)
      → n ≡ q.draining
      → OneAtATime q
      → OneAtATime (on_drained n err q)
  unfolding on_drained
  on_drained-OneAtATime zero err q e v = v
  on_drained-OneAtATime (suc n) true q e v = ground arith
  on_drained-OneAtATime (suc n) false q e v = ground arith

  on_timeout-OneAtATime : (n : ℕ) (q : Queue D) → OneAtATime q → OneAtATime (on_timeout n q)
  unfolding on_timeout
  on_timeout-OneAtATime zero q v = v
  on_timeout-OneAtATime (suc n) q v = flush-OneAtATime _ (ground arith)

  step-OneAtATime : (e : Event D) (q : Queue D) → OneAtATime q → OneAtATime (step e q)
  unfolding step on_chunk
  step-OneAtATime (chunk d) q v = flush-OneAtATime _ (ground arith)
  step-OneAtATime (write_done err) q v = on_written-OneAtATime q.writing err q refl v
  step-OneAtATime (drain_done err) q v = on_drained-OneAtATime q.draining err q refl v
  step-OneAtATime timeout q v = on_timeout-OneAtATime q.timers q v

  pub run-OneAtATime : (es : List (Event D)) (q : Queue D) → OneAtATime q → OneAtATime (run es q)
  unfolding run
  run-OneAtATime [] q v = v
  run-OneAtATime (e ∷ es) q v = run-OneAtATime es _ (step-OneAtATime e q v)
