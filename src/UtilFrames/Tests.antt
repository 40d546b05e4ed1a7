-- ===== src/UtilFrames/Tests.antt =====
-- Runs of src/util/frames.c with short packets.
use telehash_c.Prelude.{
  ℕ, ◌≡◌, refl, inl, inr, Bool, true, false, none, some, List, [], ◌∷◌, ◌++◌, arith, ◌==◌,
}
use telehash_c.UtilFrames.{
  sent_more, more_after, outbox, load, advance, sent, UtilFrames, overrun, refused, accepted,
  to_bytes, from_bytes, read_header, check_header, raw, new, clear, is_ok, send, total, is_pending,
  is_busy, prepare, awaiting, free_empties, resume, lob_direct, complete, inbox_loop, inbox,
}
use telehash_c.UtilFrames.Queue.{append, drop_empties, packets}
use telehash_c.UtilFrames.Splitting.{inbox-append}
use telehash_c.UtilFrames.Transfer.{exchange, exchange_everything}
use telehash_c.UtilFrames.Draining.{eight_bytes_stay, send_frames, receive_times, receive_times_lem}
use telehash_c.UtilFrames.Limits.{header_in_parts, refused_then_ok}

-- A validator that takes every head; the packets here have none.
abbrev any_json : List ℕ → Bool
any_json head = true

abbrev nine : List ℕ
nine = 0 ∷ 0 ∷ 1 ∷ 2 ∷ 3 ∷ 4 ∷ 5 ∷ 6 ∷ 7 ∷ []

abbrev ten : List ℕ
ten = 0 ∷ 0 ∷ 1 ∷ 2 ∷ 3 ∷ 4 ∷ 5 ∷ 6 ∷ 7 ∷ 8 ∷ []

abbrev eight : List ℕ
eight = 0 ∷ 0 ∷ 1 ∷ 2 ∷ 3 ∷ 4 ∷ 5 ∷ 6 ∷ []

abbrev header_nine : List ℕ
header_nine = 42 ∷ 0 ∷ 0 ∷ 0 ∷ 9 ∷ 0 ∷ 0 ∷ 0 ∷ []

abbrev fresh : UtilFrames
fresh = record {
  magic = 42;
  max = 64;
  filled = [];
  inlen = 0;
  out = [];
  inbox = [];
  outbox = [];
  is_receiving = false;
  is_sending = false;
  inbox_err = false;
}

starts_empty : new 42 64 ≡ fresh
unfolding new
starts_empty = refl

sender : UtilFrames
unfolding send append
sender = (send ten (send nine fresh).0).0

stuck : UtilFrames
unfolding send append
stuck = (send ten (send eight fresh).0).0

-- Seven bytes are too few, and two packets have 19.
sizes :
    ((send (0 ∷ 0 ∷ 1 ∷ 2 ∷ 3 ∷ 4 ∷ 5 ∷ []) fresh).1 ≡ false)
    × (is_pending sender ≡ true)
    × (total sender.outbox ≡ 19)
    × (is_busy fresh ≡ false)
    × ((awaiting fresh).0 ≡ 8)
    × (sent_more fresh ≡ false)
    × (sent_more (outbox sender).0 ≡ true)
unfolding send sender sent_more more_after sent advance outbox load to_bytes free_empties
    drop_empties is_pending total is_busy awaiting prepare raw append
sizes = (refl, refl, refl, refl, refl, refl, refl)

header_then_packet :
    inbox any_json fresh (header_nine ++ nine ++ 42 ∷ 0 ∷ [])
    ≡ accepted (record fresh { inbox = some nine ∷ []; inlen = 8; filled = 42 ∷ 0 ∷ [] })
unfolding inbox inbox_loop resume complete awaiting prepare check_header read_header from_bytes
    lob_direct free_empties drop_empties append
header_then_packet = refl

cleared : clear (record fresh { inlen = 8; filled = 42 ∷ []; inbox_err = true }) ≡ fresh
unfolding clear
cleared = refl

abbrev reading : UtilFrames
reading = record fresh { inlen = 9 }

first_part :
    inbox any_json reading (0 ∷ 0 ∷ 1 ∷ [])
    ≡ accepted (record fresh { inlen = 9; filled = 0 ∷ 0 ∷ 1 ∷ [] })
unfolding inbox inbox_loop awaiting prepare
first_part = refl

inbox-append_example :
    inbox any_json reading nine
    ≡ inbox any_json
        (record fresh { inlen = 9; filled = 0 ∷ 0 ∷ 1 ∷ [] })
        (2 ∷ 3 ∷ 4 ∷ 5 ∷ 6 ∷ 7 ∷ [])
inbox-append_example =
    inbox-append any_json reading (record fresh { inlen = 9; filled = 0 ∷ 0 ∷ 1 ∷ [] })
      (0 ∷ 0 ∷ 1 ∷ []) (2 ∷ 3 ∷ 4 ∷ 5 ∷ 6 ∷ 7 ∷ []) (inr (omega arith)) (omega arith) (omega arith)
      first_part (λ (e : (9 == 8) ≡ true). absurd (cc))

exchange_everything_example :
    (s2 : UtilFrames) × (r2 : UtilFrames) × (exchange any_json 5 sender fresh ≡ (s2, accepted r2))
    × (s2.outbox ≡ [])
    × (packets r2.inbox ≡ [] ++ nine ∷ ten ∷ [])
unfolding sender send append packets lob_direct
exchange_everything_example =
    exchange_everything any_json (nine ∷ ten ∷ []) 5 sender fresh refl refl refl refl refl
      (omega arith)
      (
        (omega arith, omega arith, omega arith, refl),
        ((omega arith, omega arith, omega arith, refl), tt),
      )
      (omega arith)

header_in_parts_example :
    (g : UtilFrames) × (inbox any_json fresh (42 ∷ 0 ∷ 0 ∷ []) ≡ accepted g)
    × (inbox any_json g (0 ∷ 9 ∷ 0 ∷ 0 ∷ 0 ∷ []) ≡ overrun)
header_in_parts_example =
    header_in_parts any_json fresh (42 ∷ 0 ∷ 0 ∷ []) (0 ∷ 9 ∷ 0 ∷ 0 ∷ 0 ∷ []) refl (omega arith)
      (omega arith) (omega arith) (omega arith)

too_long : read_header (42 ∷ 0 ∷ 0 ∷ 0 ∷ 65 ∷ 0 ∷ 0 ∷ 0 ∷ 7 ∷ []) ≡ some (42, 65)
unfolding read_header from_bytes
too_long = refl

refused_then_ok_case :
    (g : UtilFrames) × (h : UtilFrames) × (inbox any_json fresh
        (42 ∷ 0 ∷ 0 ∷ 0 ∷ 65 ∷ 0 ∷ 0 ∷ 0 ∷ 7 ∷ [])
      ≡ refused g)
    × (is_ok g ≡ false)
    × (g.inbox ≡ [])
    × (inbox any_json g (to_bytes 42 ++ to_bytes 9) ≡ accepted h)
    × (is_ok h ≡ true)
    × (h.inlen ≡ 9)
refused_then_ok_case =
    refused_then_ok any_json fresh (42 ∷ 0 ∷ 0 ∷ 0 ∷ 65 ∷ 0 ∷ 0 ∷ 0 ∷ 7 ∷ []) 42 65 9 refl
      (omega arith) too_long (inr (omega arith)) (omega arith) (omega arith) (omega arith)

eight_bytes_stay_example : (send_frames 7 stuck).outbox ≡ some eight ∷ some ten ∷ []
unfolding stuck send append
eight_bytes_stay_example = eight_bytes_stay 7 stuck eight (some ten ∷ []) refl refl (inl refl)

abbrev received_two : UtilFrames
received_two = record fresh { inbox = none ∷ some ten ∷ some nine ∷ [] }

receive_times_lem_case : receive_times 3 received_two ≡ ten ∷ nine ∷ []
unfolding packets
receive_times_lem_case = receive_times_lem received_two
