-- ===== src/Links/Tests.antt =====
-- src/link.c: runs of the definitions, and the theorems at concrete inputs.
use telehash_c.Prelude.{
  ℕ, ◌≡◌, refl, Bool, true, false, none, some, List, [], ◌∷◌, arith, ◌==◌, ltb, if◌then◌else◌,
}
use telehash_c.Exchange.{Exchange, check_cid, next_cid}
use telehash_c.Chan.{
  new, handle, receive, process, process_all, ChanState, ended, opening, Chan, PacketApi,
}
use telehash_c.Links.{
  give_cid, done, fault, ◌>>=◌, Link, chan_get, link_chan, link_free, link_down, link_process,
}
use telehash_c.Links.Removal.{forget, down_then_free}
use telehash_c.Links.Running.{Call, add, take, listen, tick, run, plain_run}
use telehash_c.Links.Holding.{Holds}
use telehash_c.Links.Keeping.{run-Holds}

-- Packets are numbers: those over 99 have an "end", and 100 is the error packet.
abbrev numbers : PacketApi ℕ
numbers = record { is_end = λ p. ltb 99 p; make_err = λ id msg. 100 }

abbrev last_state : List ℕ → ChanState → ChanState
last_state [] s = s
last_state (p ∷ ps) s = last_state ps (if ltb 99 p then ended else s)

-- A handler that takes every packet.
abbrev take_all : Chan ℕ → Chan ℕ
take_all c = record c { incoming = []; state = last_state c.incoming c.state }

abbrev session : Exchange
session = record { in_at = 5; out_at = 6; cid = 2; last = 0; order = 2; ephem = none; eid = 0 }

abbrev no_channel : Link ℕ
no_channel = record {
  chans = 0;
  store = record { cell = λ c. none; next = λ c. 0 };
  x = session;
  csid = 1;
  has_pipe = true;
  reports = 0;
  pipe_ends = 0;
}

abbrev stream : ℕ → Bool → Chan ℕ
stream id has_handle = record {
  id = id;
  kind = "stream";
  state = opening;
  incoming = [];
  sent = [];
  trecv = 0;
  timeout = 0;
  has_handle = has_handle;
  has_link = true;
}

-- Block 10 holds a channel without a handler, and block 20, behind it, one with a handler.
abbrev two_channels : Link ℕ
two_channels = record no_channel {
  chans = 10;
  store = record {
    cell = λ c.
        if c == 10 then some (stream 2 false) else (if c == 20 then some (stream 4 true) else none);
    next = λ c. if c == 10 then 20 else 0;
  };
}

found_second : chan_get 3 4 10 two_channels.store ≡ done 20
unfolding chan_get
found_second = refl

found_none : chan_get 3 6 10 two_channels.store ≡ done 0
unfolding chan_get
found_none = refl

first_id : (link_chan 10 0 (some "stream") no_channel).store.cell 10 ≡ some (stream 2 false)
unfolding link_chan new
first_id = refl

no_kind : (link_chan 10 0 none no_channel).chans ≡ 0
unfolding link_chan new
no_kind = refl

processed_again :
    (link_down numbers take_all 3 two_channels >>= link_process numbers take_all 3 9) ≡ fault
unfolding link_down link_process process
processed_again = refl

flagged : link_process numbers take_all 3 9 (record two_channels { csid = 0 }) ≡ fault
unfolding link_process process
flagged = refl

-- A channel is opened here, another one there, which ends; the second block is used again.
abbrev calls : List (Call ℕ)
calls =
    add 10 0 (some "stream")
    ∷ take 20 3 (some "thtp") 7
    ∷ listen 3
    ∷ take 30 3 none 100
    ∷ add 20 0 (some "stream")
    ∷ tick 9
    ∷ []

run-Holds_example :
    (m : Link ℕ) × (ys : List ℕ) × (run numbers take_all (λ p. p == 7) 7 calls no_channel ≡ done m)
    × Holds ys (plain_run numbers take_all (λ p. p == 7) calls ([], session)) m
unfolding run new handle process receive
run-Holds_example =
    run-Holds numbers take_all (λ p. p == 7) 7 calls [] ([], session) no_channel (omega arith)
      ((refl, tt), refl, refl)
      ((refl, refl), ((refl, refl), (tt, ((refl, refl), ((refl, refl), (tt, tt))))))

still_two : plain_run numbers take_all (λ p. p == 7) calls ([], session) ≡ (
  record (stream 4 false) { trecv = 9 } ∷ record (stream 2 false) { trecv = 9 } ∷ [],
  record session { cid = 6; last = 3 },
)
unfolding check_cid next_cid process_all give_cid new handle receive
still_two = refl

down_then_free_example :
    (forget (link_free 3 two_channels) ≡ done tt)
    × (forget (link_down numbers take_all 3 two_channels >>= link_free 3) ≡ fault)
unfolding process
down_then_free_example =
    down_then_free numbers take_all 3 (10 ∷ 20 ∷ []) (stream 2 false ∷ stream 4 true ∷ [])
      two_channels (omega arith) ((refl, refl, refl, (refl, refl, refl, refl)), (refl, (refl, tt)))
