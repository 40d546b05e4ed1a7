-- ===== src/Chunks/Queue.antt =====
-- js/core.js, class Chunks: `datas`, `flushing` and `flush`, with the stream's callbacks.
use telehash_c.Prelude.{
  ℕ, zero, suc, Bool, true, false, List, [], ◌∷◌, ◌++◌, ◌≡◌, arith, if◌then◌else◌,
}

-- `D` is the type of chunks (`Buffer`).
pub record Queue (D : Type 0) : Type 0 where
  pub datas : List D
  pub flushing : Bool
  -- What was given to `stream.write`; the callbacks of `write` and `drain` and the timers that have
  -- yet to run.
  pub written : List D
  pub writing : ℕ
  pub draining : ℕ
  pub timers : ℕ

pub data Event (D : Type 0) : Type 0 where
  chunk : D → Event D
  write_done : Bool → Event D
  drain_done : Bool → Event D
  timeout : Event D

abbrev pub empty : {D : Type 0} → Queue D
empty = record { datas = []; flushing = false; written = []; writing = 0; draining = 0; timers = 0 }

module _ {D : Type 0} where
  unfoldable pub write_first : List D → Queue D → Queue D
  write_first [] q = q
  write_first (d ∷ ds) q = record q {
    flushing = true;
    datas = ds;
    written = q.written ++ d ∷ [];
    writing = suc q.writing;
  }

  unfoldable pub flush : Queue D → Queue D
  unfolding write_first
  flush q = if q.flushing then q else write_first q.datas q

  pub flush_set : (q : Queue D) → q.flushing ≡ true → flush q ≡ q
  unfolding flush
  flush_set q h = ground arith

  pub flush_clear : (q : Queue D) → q.flushing ≡ false → flush q ≡ write_first q.datas q
  unfolding flush
  flush_clear q h = ground arith

  -- `this.chunks.on('data', …)`
  unfoldable pub on_chunk : D → Queue D → Queue D
  on_chunk d q = flush (record q { datas = q.datas ++ d ∷ [] })

  -- The callback of `stream.write`: an error returns with `flushing` still set. A callback or a
  -- timer that is not waiting cannot fire.
  unfoldable pub on_written : ℕ → Bool → Queue D → Queue D
  on_written zero err q = q
  on_written (suc n) true q = record q { writing = n }
  on_written (suc n) false q = record q { writing = n; draining = suc q.draining }

  -- The callback of `stream.drain`.
  unfoldable pub on_drained : ℕ → Bool → Queue D → Queue D
  on_drained zero err q = q
  on_drained (suc n) true q = record q { draining = n; flushing = false }
  on_drained (suc n) false q = record q { draining = n; flushing = false; timers = suc q.timers }

  unfoldable pub on_timeout : ℕ → Queue D → Queue D
  on_timeout zero q = q
  on_timeout (suc n) q = flush (record q { timers = n })

  unfoldable pub step : Event D → Queue D → Queue D
  step (chunk d) q = on_chunk d q
  step (write_done err) q = on_written q.writing err q
  step (drain_done err) q = on_drained q.draining err q
  step timeout q = on_timeout q.timers q

  unfoldable pub run : List (Event D) → Queue D → Queue D
  run [] q = q
  run (e ∷ es) q = run es (step e q)

  -- The chunks that the chunking stream has emitted.
  unfoldable pub emitted : List (Event D) → List D
  emitted [] = []
  emitted (chunk d ∷ es) = d ∷ emitted es
  emitted (write_done err ∷ es) = emitted es
  emitted (drain_done err ∷ es) = emitted es
  emitted (timeout ∷ es) = emitted es
