-- ===== src/Chunks/Tests.antt =====
-- Runs of class Chunks with a small mesh.
use telehash_c.Prelude.{
  true, ℕ, suc, ◌≡◌, refl, false, Option, none, some, List, [], ◌∷◌, ◌++◌, arith,
}
use telehash_c.Native.{MeshApi}
use telehash_c.Chunks.Queue.{
  chunk, write_done, drain_done, timeout, write_first, flush, on_chunk, on_written, on_drained,
  on_timeout,
}
use telehash_c.Chunks.Queue
use telehash_c.Chunks.{
  Chunks, Event, received, queued, deliver, close, pipe, pipe_all, on_close, establish, attach,
  found, on_receive, step, run, start, queue_events,
}
use telehash_c.Chunks.Delivery.{OneAtATime}
use telehash_c.Chunks.Draining.{rounds}
use telehash_c.Chunks.Runs.{run-start_in_order, everything_written}
use telehash_c.Chunks.Closing.{OnePipe, run-start-OnePipe, closes_tell_last}

-- The first byte of a packet is its link, 0 for none.
abbrev first_byte : List ℕ → Option ℕ
first_byte [] = none
first_byte (ℕ.zero ∷ bytes) = none
first_byte (ℕ.suc n ∷ bytes) = some (suc n)

abbrev by_byte : MeshApi ℕ (List ℕ)
by_byte = record {
  mesh_receive = λ m p. (suc m, first_byte p, []);
  mesh_add = λ m p. (suc m, first_byte p, []);
  mesh_link = λ m link. m;
  link_pipe = λ m link. (m, (1 ∷ []) ∷ []);
  mesh_json = λ m. 123 ∷ 125 ∷ [];
}

abbrev busy : List (Event (List ℕ) (List ℕ))
busy =
    queued (chunk (10 ∷ []))
    ∷ received false (some (7 ∷ []))
    ∷ queued (chunk (11 ∷ []))
    ∷ queued (write_done false)
    ∷ queued (chunk (12 ∷ []))
    ∷ queued (drain_done false)
    ∷ received false (some (8 ∷ []))
    ∷ queued timeout
    ∷ []

begun : Chunks ℕ (List ℕ) (List ℕ)
unfolding start pipe
begun = start by_byte (List ℕ) 0

after_busy : Chunks ℕ (List ℕ) (List ℕ)
unfolding begun run step on_receive found attach establish pipe_all pipe on_close Queue.step
    write_first flush on_chunk on_written on_drained on_timeout
after_busy = run by_byte (List ℕ) busy begun

-- The second chunk is written when the first write has drained; the third waits.
busy_runs :
    (after_busy.queue.written ≡ (10 ∷ []) ∷ (11 ∷ []) ∷ [])
    × (after_busy.queue.datas ≡ (12 ∷ []) ∷ [])
    × (after_busy.pipes ≡ 7 ∷ [])
    × (after_busy.link ≡ some 8)
unfolding after_busy
busy_runs = (refl, refl, refl, refl)

run-start_in_order_example :
    ((run by_byte (List ℕ) busy (start by_byte (List ℕ) 0)).queue.written
        ++ (run by_byte (List ℕ) busy (start by_byte (List ℕ) 0)).queue.datas
      ≡ Queue.emitted (queue_events busy))
    × OneAtATime (run by_byte (List ℕ) busy (start by_byte (List ℕ) 0)).queue
run-start_in_order_example = run-start_in_order by_byte (List ℕ) 0 busy

everything_written_example :
    (Queue.run (rounds 1) (run by_byte (List ℕ) busy (start by_byte (List ℕ) 0)).queue).written
    ≡ Queue.emitted (queue_events busy)
unfolding queue_events
everything_written_example =
    everything_written by_byte (List ℕ) 0 busy 1 (tt, (tt, (refl, (tt, (refl, (tt, tt))))))
      (unfold after_busy in (omega arith))

run-start-OnePipe_case : OnePipe (run by_byte (List ℕ) busy (start by_byte (List ℕ) 0))
run-start-OnePipe_case = run-start-OnePipe by_byte (List ℕ) 0 busy

-- The pipe is link 7's, and each 'close' tells nobody.
abbrev closing : List (Event (List ℕ) (List ℕ))
closing = deliver (some (1 ∷ [])) ∷ close ∷ received true none ∷ close ∷ []

closes_tell_last_example :
    ((run by_byte
        (List ℕ)
        closing
        (step by_byte (List ℕ) (received false (some (0 ∷ []))) after_busy)).downs
      ≡ after_busy.downs ++ none ∷ none ∷ [])
    × ((run by_byte
          (List ℕ)
          closing
          (step by_byte (List ℕ) (received false (some (0 ∷ []))) after_busy)).pipes
        ≡ after_busy.pipes)
closes_tell_last_example =
    closes_tell_last by_byte (List ℕ) (0 ∷ []) (unfold after_busy in 3) none [] closing after_busy
      (unfold after_busy in refl) (unfold after_busy in refl) (tt, (tt, (tt, (tt, tt))))
