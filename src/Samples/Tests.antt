-- ===== src/Samples/Tests.antt =====
-- Runs of the sample programs with small libraries.
use telehash_c.Prelude.{
  ℕ, zero, suc, ◌≡◌, refl, Bool, true, false, Option, none, some, List, [], ◌∷◌, ◌++◌, length, ◌==◌,
}
use telehash_c.Samples.Serial
use telehash_c.Samples.Serial.{
  SerialApi, Serial, incoming, write_frame, flush_rest, flush_frame, flush_loop, frames_flush,
  on_open, pipe_all, read_frame, read_loop, attach, found, on_packet, received, receive_loop,
  on_data, start,
}
use telehash_c.Samples.Reading.{Sound, view, run-start-Sound}
use telehash_c.Samples.Udp
use telehash_c.Samples.Udp.{
  UdpApi, Socket, Event, message, typed, route, link_send, send_all, called, link_pipe, say_hello,
  establish, pass_on, receive, receive_reply, on_stdin, step, run, run_sender,
}
use telehash_c.Samples.Routes.{heard, greeting, datagram, last_link, deliver_to_last, typed_to_last}

-- A frames library of two queues: what waits to be received and what waits to be sent.
abbrev Queues : Type 0
Queues = List (List ℕ) × List (List ℕ)

abbrev front : Queues → Queues × Option (List ℕ)
front (r, []) = ((r, []), none)
front (r, x ∷ xs) = ((r, x ∷ xs), some x)

abbrev drop_front : Queues → Queues × Bool
drop_front (r, []) = ((r, []), false)
drop_front (r, x ∷ []) = ((r, []), false)
drop_front (r, x ∷ y ∷ xs) = ((r, y ∷ xs), true)

abbrev take_one : Queues → Option (List ℕ) × Queues
take_one ([], s) = (none, ([], s))
take_one (x ∷ r, s) = (some x, (r, s))

abbrev link_of_bytes : List ℕ → Option ℕ
link_of_bytes [] = none
link_of_bytes (x ∷ xs) = some x

abbrev queues : SerialApi Queues ℕ (List ℕ)
queues = record {
  outbox = λ f size. front f;
  sent = λ f. drop_front f;
  inbox = λ f bytes. (f.0 ++ bytes ∷ [], f.1);
  receive = λ f. take_one f;
  send = λ f p. (f.0, f.1 ++ p ∷ []);
  waiting = λ f. length f.0;
  unsent = λ f. length f.1;
  mesh_receive = λ m p. (suc m, link_of_bytes p, (9 ∷ []) ∷ []);
  link_pipe = λ m l. (m, (l ∷ []) ∷ []);
}

abbrev bytes_of : ℕ → List ℕ
bytes_of zero = []
bytes_of (suc n) = suc n ∷ bytes_of n

abbrev traffic : List (Serial.Event (List ℕ))
traffic = incoming (bytes_of 60) ∷ Serial.deliver (some (1 ∷ [])) ∷ incoming (bytes_of 10) ∷ []

-- Seventy bytes make one frame and six bytes more; its packet makes the link, which gets the pipe.
traffic_runs :
    (length (Serial.run queues traffic (start ([], []) 0)).readbuf ≡ 6)
    × ((Serial.run queues traffic (start ([], []) 0)).linked ≡ some 60)
    × ((Serial.run queues traffic (start ([], []) 0)).written
        ≡ (1 ∷ []) ∷ (9 ∷ []) ∷ (60 ∷ []) ∷ [])
unfolding Serial.run start frames_flush Serial.pipe flush_loop
traffic_runs = (refl, refl, refl)

run-start-Sound_example :
    Sound 64 (Serial.stream traffic) (view (Serial.run queues traffic (start ([], []) 0)))
run-start-Sound_example = run-start-Sound queues ([], []) 0 traffic

-- The greeting goes out when the port opens.
greeted : (on_open queues (7 ∷ []) (start ([], []) 0)).written ≡ (7 ∷ []) ∷ []
unfolding on_open start frames_flush flush_loop
greeted = refl

-- A packet is its bytes; one that starts with 1 holds the key of the link that its second byte names.
abbrev has_key : Option (List ℕ) → Bool
has_key (some (a ∷ b ∷ bytes)) = a == 1
has_key packet = false

abbrev key_link : Option (List ℕ) → Option ℕ
key_link (some (a ∷ b ∷ bytes)) = some b
key_link packet = none

abbrev size_of : Option (List ℕ) → ℕ
size_of none = 0
size_of (some p) = length p

abbrev plain_udp : UdpApi ℕ (List ℕ)
plain_udp = record {
  parse = λ msg. some msg;
  head_len = λ p. size_of p;
  vkey = λ p. has_key p;
  get_key = λ m p. (suc m, key_link p);
  raw = λ p. p;
  hello = λ m. 100 ∷ [];
  mesh_receive = λ m p. (suc m, []);
  link_sync = λ m l. (m, (l, some (50 ∷ [])) ∷ []);
  link_direct = λ m l input. (m, (l, some input) ∷ []);
}

abbrev quiet : Socket ℕ ℕ
quiet = record { mesh = 0; routes = []; sent = []; link = none }

abbrev key_of_five : List ℕ
key_of_five = 1 ∷ 5 ∷ 0 ∷ 0 ∷ 0 ∷ 0 ∷ 0 ∷ []

-- Link 5 is heard from address 80, then from 81.
abbrev heard_twice : List (Event (List ℕ) ℕ)
heard_twice =
    message key_of_five 80
    ∷ message (2 ∷ []) 82
    ∷ message key_of_five 81
    ∷ message (1 ∷ 6 ∷ []) 83
    ∷ []

heard_twice_runs :
    (run plain_udp heard_twice quiet).sent
    ≡ (100 ∷ [], 80) ∷ (50 ∷ [], 80) ∷ (100 ∷ [], 81) ∷ (50 ∷ [], 81) ∷ []
unfolding run send_all pipe_all Udp.pipe
heard_twice_runs = refl

deliver_to_last_case :
    (run plain_udp (heard_twice ++ Udp.deliver 5 (some (7 ∷ [])) ∷ []) quiet).sent
    ≡ (run plain_udp heard_twice quiet).sent ++ (7 ∷ [], 81) ∷ []
unfolding heard greeting datagram route
deliver_to_last_case = deliver_to_last plain_udp key_link (λ m p. refl) heard_twice 5 (7 ∷ []) quiet

typed_to_last_case :
    run_sender plain_udp (heard_twice ++ typed (8 ∷ []) ∷ []) quiet
    ≡ on_stdin plain_udp (some 6) (8 ∷ []) (run_sender plain_udp heard_twice quiet)
unfolding last_link
typed_to_last_case = typed_to_last plain_udp key_link (λ m p. refl) heard_twice (8 ∷ []) quiet
