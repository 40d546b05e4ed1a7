-- ===== src/Chan/Tests.antt =====
-- src/chan.c: runs of the definitions, and the theorems at concrete inputs.
use telehash_c.Prelude.{
  ℕ, ◌≡◌, refl, true, false, Option, none, some, [], ◌∷◌, arith, ◌==◌, ltb, if◌then◌else◌,
}
use telehash_c.Channel.{Packet, Channel}
use telehash_c.Channel
use telehash_c.Channel.Receiving.{readable, unreadable}
use telehash_c.Chan.{
  ChanState, ended, opening, Chan, PacketApi, new, set_timeout, receive, send, handle, receiving,
  check_time, process, process_all,
}
use telehash_c.Chan.Receiving.{end_state, chan_api, handle-Chan}
use telehash_c.Chan.Timing.{Idle, process_at, process_at-Paced, process_late}

-- Packets are numbers: those over 99 have an "end", and 100 is the error packet.
abbrev numbers : PacketApi ℕ
numbers = record { is_end = λ p. ltb 99 p; make_err = λ id msg. 100 }

abbrev idle : Chan ℕ
idle = record {
  id = 7;
  kind = "stream";
  state = opening;
  incoming = [];
  sent = [];
  trecv = 50;
  timeout = 60;
  has_handle = true;
  has_link = false;
}

-- A handler that takes every packet.
abbrev take_all : Chan ℕ → Chan ℕ
take_all c = record c { incoming = []; state = end_state (λ p. ltb 99 p) c.incoming c.state }

new_no_id : new {P = ℕ} 0 (some "stream") ≡ none
unfolding new
new_no_id = refl

new_no_kind : new {P = ℕ} 7 none ≡ none
unfolding new
new_no_kind = refl

received_in_order : (receiving numbers (receive 2 (receive 1 idle))).0 ≡ some 1
unfolding receiving receive
received_in_order = refl

end_received : (receiving numbers (receive 100 idle)).1.state ≡ ended
unfolding receiving receive
end_received = refl

no_link : (send 1 idle).sent ≡ []
unfolding send
no_link = refl

asked_timeout : (set_timeout 0 idle).0 ≡ 60
unfolding set_timeout
asked_timeout = refl

kicked : (check_time numbers 55 idle).timeout ≡ 65
unfolding check_time
kicked = refl

timed_out : process numbers take_all 61 idle ≡ none
unfolding process end_state
timed_out = refl

one_left :
    process_all numbers take_all 61 (idle ∷ record idle { timeout = 0; trecv = 61 } ∷ [])
    ≡ record idle { timeout = 0; trecv = 61 } ∷ []
unfolding process_all end_state
one_left = refl

-- 60 is the time of the first timeout: the channel is idle until 75.
process_at-Paced_example :
    (d : Chan ℕ) × (process_at numbers take_all (58 ∷ 66 ∷ 75 ∷ []) idle ≡ some d)
    × Idle numbers take_all 10 d
unfolding telehash_c.Chan.is_ended
process_at-Paced_example =
    process_at-Paced numbers take_all 10 (58 ∷ 66 ∷ 75 ∷ []) idle (omega arith, refl, refl, refl)
      (
        omega arith,
        omega arith,
        omega arith,
        (omega arith, omega arith, omega arith, (omega arith, omega arith, omega arith, tt)),
      )

process_late_case : process numbers take_all 61 idle ≡ none
process_late_case =
    process_late numbers take_all 61 idle (omega arith) (omega arith) refl refl (λ d. refl)

-- Packet 2 cannot be read.
abbrev decode : ℕ → Option (Packet ℕ ℕ)
decode p = if p == 2 then none else some (record { json = p; body = p })

abbrev waiting : Channel (Chan ℕ) ℕ ℕ
waiting = record {
  chan = record idle { incoming = 1 ∷ 2 ∷ 100 ∷ [] };
  open_packet = 1;
  pushed = [];
  bad = [];
}

handle-Chan_example :
    ((Channel.handle (chan_api numbers (λ p. p.json) decode (λ c j. j)) waiting).pushed
      ≡ record { json = 1; body = 1 } ∷ record { json = 100; body = 100 } ∷ [])
    × ((Channel.handle (chan_api numbers (λ p. p.json) decode (λ c j. j)) waiting).bad ≡ 2 ∷ [])
    × ((Channel.handle (chan_api numbers (λ p. p.json) decode (λ c j. j)) waiting).chan.incoming
        ≡ [])
    × ((Channel.handle (chan_api numbers (λ p. p.json) decode (λ c j. j)) waiting).chan.state
        ≡ ended)
unfolding readable unreadable end_state
handle-Chan_example = handle-Chan numbers (λ p. p.json) decode (λ c j. j) waiting
