-- ===== src/UtilChunks/Tests.antt =====
-- Runs of src/util/chunks.c with short packets.
use telehash_c.Prelude.{ℕ, ◌≡◌, refl, Bool, true, false, none, some, List, [], ◌∷◌, arith}
use telehash_c.UtilFrames.{lob_direct}
use telehash_c.UtilChunks.{
  UtilChunks, new, send, read, read_chunk, split_at, receive, end_packet, size_of, next, transmit,
}
use telehash_c.UtilChunks.Writing.{between, rounds}
use telehash_c.UtilChunks.Bytes.{read-append}
use telehash_c.UtilChunks.Transfer.{transmit-received, transmit_lost}

-- A validator that takes every head; the packets here have none.
abbrev any_json : List ℕ → Bool
any_json head = true

abbrev five : List ℕ
five = 0 ∷ 0 ∷ 1 ∷ 2 ∷ 3 ∷ []

abbrev four : List ℕ
four = 0 ∷ 0 ∷ 1 ∷ 2 ∷ []

-- Chunks of three bytes: four bytes in all with the size.
abbrev chunks : UtilChunks
chunks = record {
  reading = [];
  writing = [];
  writeat = 0;
  waitat = 0;
  waiting = 0;
  cap = 3;
  blocked = false;
  blocking = true;
  ack = false;
  err = false;
}

made : new 4 ≡ chunks
unfolding new
made = refl

sent : send five chunks ≡ between chunks five [] 0 false
unfolding send between
sent = refl

five_blocks : (transmit 20 (between chunks five [] 0 false)).0 ≡ 3 ∷ 0 ∷ 0 ∷ 1 ∷ 2 ∷ 2 ∷ 3 ∷ 0 ∷ []
unfolding transmit between end_packet
five_blocks = refl

-- Four bytes leave a chunk of one byte, and the empty chunk is missing.
four_blocks : (transmit 20 (between chunks four [] 0 false)).0 ≡ 3 ∷ 0 ∷ 0 ∷ 1 ∷ 1 ∷ 2 ∷ []
unfolding transmit between end_packet
four_blocks = refl

-- The frame's way: whole chunks.
next_chunk : ((next (between chunks five [] 0 false)).0.writeat ≡ 3) × ((size_of chunks).0 ≡ none)
unfolding next size_of between end_packet
next_chunk = (refl, refl)

chunk_read :
    (receive any_json
      (read_chunk [] (read_chunk (2 ∷ 3 ∷ []) (read_chunk (0 ∷ 0 ∷ 1 ∷ []) chunks)))).0
    ≡ some five
unfolding receive read_chunk split_at lob_direct
chunk_read = refl

transmit-received_example :
    ((receive any_json
        (read (transmit (rounds 5 0) (between chunks five (four ∷ []) 0 false)).0 chunks)).0
      ≡ some five)
    × ((receive any_json (
          read
            (transmit (rounds 5 0) (between chunks five (four ∷ []) 0 false)).0
            chunks)).1.reading
        ≡ [])
    × ((transmit (rounds 5 0) (between chunks five (four ∷ []) 0 false)).1.writing ≡ four ∷ [])
unfolding lob_direct
transmit-received_example =
    transmit-received any_json chunks chunks five (four ∷ []) 0 false (omega arith) refl refl
      (omega arith) refl

transmit_lost_example :
    ((receive any_json (read (transmit (rounds 4 0) (between chunks four [] 0 false)).0 chunks)).0
      ≡ none)
    × ((transmit (rounds 4 0) (between chunks four [] 0 false)).1.writing ≡ [])
transmit_lost_example =
    transmit_lost any_json chunks chunks four [] 0 false (omega arith) refl refl refl

read-append_example :
    read (2 ∷ 0 ∷ 0 ∷ 3 ∷ []) chunks ≡ read (0 ∷ 3 ∷ []) (read (2 ∷ 0 ∷ []) chunks)
read-append_example = read-append (2 ∷ 0 ∷ []) (0 ∷ 3 ∷ []) chunks
