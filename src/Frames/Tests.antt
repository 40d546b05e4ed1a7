-- ===== src/Frames/Tests.antt =====
-- A small frames library and mesh for runs of class Frames.
use telehash_c.Prelude.{
  ℕ, suc, ◌<◌, ◌≡◌, refl, ◌⊎◌, Bool, true, false, Option, none, some, List, [], ◌∷◌, ◌++◌, ◌%◌,
  arith, length, All,
}
use telehash_c.Native.{FramesApi, FramesLaws, MeshApi, of_option}
use telehash_c.Frames.Recording.{Cut, view, recorded}
use telehash_c.Frames.Cutting.{run-start-Cut, same_bytes}
use telehash_c.Frames.{
  Frames, Event, incoming, write_done, timeout, deliver, accepted, close, buffer, read_all, on_data,
  step, run, start, receive_all, receive_loop, on_packet, found, attach, establish, pipe_all, pipe,
  frames_flush, write_frame, read_loop, read_frame, on_callback, on_written, on_timeout,
}
use telehash_c.Frames.Reader.{read_all-remainder}
use telehash_c.Frames.Runs.{Healthy}
use telehash_c.Frames.Flow.{Flow, run-start-Flow, write_error_stalls}
use telehash_c.Frames.Wakeup.{pending_awake}

-- Each packet is one frame, and each frame one packet.
record Queues : Type 0 where
  out : List (List ℕ)
  inside : List (List ℕ)

abbrev is_cons : List (List ℕ) → Bool
is_cons [] = false
is_cons (x ∷ xs) = true

abbrev head_or_nil : List (List ℕ) → List ℕ
head_or_nil [] = []
head_or_nil (x ∷ xs) = x

abbrev tail : List (List ℕ) → List (List ℕ)
tail [] = []
tail (x ∷ xs) = xs

abbrev pop : List (List ℕ) → Queues → Option (List ℕ) × Queues
pop [] q = (none, q)
pop (x ∷ xs) q = (some x, record q { inside = xs })

abbrev queues_api : FramesApi Queues (List ℕ)
queues_api = record {
  pending = λ q. is_cons q.out;
  outbox = λ q size. (q, head_or_nil q.out);
  sent = λ q. record q { out = tail q.out };
  inbox = λ q frame. record q { inside = q.inside ++ frame ∷ [] };
  is_ok = λ q. true;
  clear = λ q. q;
  receive = λ q. pop q.inside q;
  send = λ q p. record q { out = q.out ++ p ∷ [] };
  waiting = λ q. q.inside;
}

pop-inside :
    (xs : List (List ℕ)) (q : Queues)
    → of_option (pop xs q).0 ++ (pop xs (record q { inside = xs })).1.inside ≡ xs
pop-inside [] q = refl
pop-inside (x ∷ xs) q = refl

pop-none : (xs : List (List ℕ)) (q : Queues) → (pop xs q).0 ≡ none → xs ≡ []
pop-none [] q h = refl
pop-none (x ∷ xs) q h = cc

pop_out : (xs : List (List ℕ)) (q : Queues) → is_cons (pop xs q).1.out ≡ is_cons q.out
pop_out [] q = refl
pop_out (x ∷ xs) q = refl

queues_laws : FramesLaws queues_api
queues_laws = record {
  receive-waiting = λ q. pop-inside q.inside q;
  receive_none = λ q h. pop-none q.inside q h;
  pending-receive = λ q. pop_out q.inside q;
  waiting-send = λ q p. refl;
  waiting-sent = λ q size. refl;
}

-- Every packet comes from link 7, which answers with the packet itself.
abbrev echo : MeshApi ℕ (List ℕ)
echo = record {
  mesh_receive = λ m p. (suc m, some 7, []);
  mesh_add = λ m p. (suc m, some 8, []);
  mesh_link = λ m link. m;
  link_pipe = λ m link. (m, (1 ∷ 2 ∷ []) ∷ []);
  mesh_json = λ m. 123 ∷ 125 ∷ [];
}

abbrev empty_queues : Queues
empty_queues = record { out = []; inside = [] }

-- The constructor's state, with all that it calls.
started : Frames Queues ℕ
unfolding start pipe frames_flush write_frame
started = start queues_api echo 3 empty_queues 0

unread : Frames Queues ℕ
unfolding started buffer
unread = buffer (1 ∷ 2 ∷ 3 ∷ 4 ∷ 5 ∷ []) started

abbrev busy : List (Event (List ℕ))
busy =
    incoming (1 ∷ 2 ∷ [])
    ∷ incoming (3 ∷ 4 ∷ [])
    ∷ deliver (some (9 ∷ []))
    ∷ accepted (5 ∷ [])
    ∷ write_done false
    ∷ timeout
    ∷ []

after_busy : Frames Queues ℕ
unfolding started run step on_data receive_all receive_loop on_packet found attach establish
    pipe_all pipe frames_flush write_frame read_all read_loop read_frame buffer on_callback
    on_written on_timeout
after_busy = run queues_api echo 3 busy started

-- The greeting and the answer of `link_pipe` are written, one after the other; the frame 1, 2, 3 made
-- link 7 known, so that the accepted link 8 got no pipe, and the byte 4 waits.
busy_runs :
    (after_busy.written ≡ (123 ∷ 125 ∷ []) ∷ (1 ∷ 2 ∷ []) ∷ [])
    × (after_busy.pipes ≡ 7 ∷ [])
    × (after_busy.readbuf ≡ 4 ∷ [])
    × (after_busy.frames.out ≡ (9 ∷ []) ∷ [])
unfolding after_busy
busy_runs = (refl, refl, refl, refl)

read_all-remainder_case :
    (length (read_all queues_api 3 unread).readbuf ≡ length unread.readbuf % 3)
    × (length (read_all queues_api 3 unread).readbuf < 3)
read_all-remainder_case = read_all-remainder queues_api 3 (omega arith) unread

run-start-Flow_example : Flow (run queues_api echo 3 busy (start queues_api echo 3 empty_queues 0))
run-start-Flow_example = run-start-Flow queues_api echo 3 empty_queues 0 busy (omega arith)

started-Flow : Flow started
unfolding started run
started-Flow = run-start-Flow queues_api echo 3 empty_queues 0 [] tt

write_error_stalls_example :
    (run queues_api echo 3 busy (step queues_api echo 3 (write_done true) started)).written
    ≡ started.written
write_error_stalls_example =
    write_error_stalls queues_api echo 3 started busy started-Flow (unfold started in refl)
      (omega arith)

busy-Healthy : All Healthy busy
busy-Healthy = (tt, (tt, (tt, (tt, (refl, (tt, tt))))))

pending_awake_case :
    ((run queues_api echo 3 busy (start queues_api echo 3 empty_queues 0)).in_flight ≡ 1)
    ⊎ (0 < (run queues_api echo 3 busy (start queues_api echo 3 empty_queues 0)).timers)
pending_awake_case =
    pending_awake queues_api queues_laws echo 3 empty_queues 0 busy busy-Healthy
      (unfold after_busy in refl)

-- `busy` with its bytes in one event.
abbrev at_once : List (Event (List ℕ))
at_once = deliver (some (9 ∷ [])) ∷ incoming (1 ∷ 2 ∷ 3 ∷ 4 ∷ []) ∷ close ∷ []

run-start-Cut_example : Cut 3 3 (1 ∷ 2 ∷ 3 ∷ 4 ∷ []) (
    view (
      run
        (recorded queues_api)
        echo
        3
        busy
        (start (recorded queues_api) echo 3 (empty_queues, []) 0)))
run-start-Cut_example = run-start-Cut queues_api echo 3 (omega arith) empty_queues 0 busy

same_bytes_example :
    ((run
        (recorded queues_api)
        echo
        3
        busy
        (start (recorded queues_api) echo 3 (empty_queues, []) 0)).frames.1
      ≡ (run
          (recorded queues_api)
          echo
          3
          at_once
          (start (recorded queues_api) echo 3 (empty_queues, []) 0)).frames.1)
    × ((run
          (recorded queues_api)
          echo
          3
          busy
          (start (recorded queues_api) echo 3 (empty_queues, []) 0)).readbuf
        ≡ (run
            (recorded queues_api)
            echo
            3
            at_once
            (start (recorded queues_api) echo 3 (empty_queues, []) 0)).readbuf)
same_bytes_example = same_bytes queues_api echo 3 (omega arith) empty_queues 0 busy at_once refl
