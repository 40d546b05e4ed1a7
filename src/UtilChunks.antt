-- ===== src/UtilChunks.antt =====
-- src/util/chunks.c: packets cut into chunks with a size byte each, and an empty chunk at the end. A
-- packet is its bytes. `js0n` of src/lib/js0n.c is a parameter.
use Prim.Native.Nat.{min}
use telehash_c.Prelude.{
  ℕ, zero, suc, ◌+◌, ◌-◌, ◌%◌, ◌^◌, Bool, true, false, not, ◌&&◌, ◌||◌, Option, none, some, List,
  [], ◌∷◌, ◌++◌, ltb, ◌==◌, if◌then◌else◌, is_some, length, take, drop,
}
use telehash_c.UtilFrames.{lob_direct}
mod Chunking
mod Writing
mod Sending
mod Reading
mod Bytes
mod Transfer
mod Tests

-- A chunk that comes in, with the part of its data that was read.
pub record Chunk : Type 0 where
  pub size : ℕ
  pub payload : List ℕ

-- `reading` has the newest chunk first; `readat` is the length of its payload, since every chunk behind
-- it is complete. `writing` is the list of packets to write.
pub record UtilChunks : Type 0 where
  pub reading : List Chunk
  pub writing : List (List ℕ)
  pub writeat : ℕ
  pub waitat : ℕ
  pub waiting : ℕ
  pub cap : ℕ
  pub blocked : Bool
  pub blocking : Bool
  pub ack : Bool
  pub err : Bool

unfoldable pub new : ℕ → UtilChunks
new size = record {
  reading = [];
  writing = [];
  writeat = 0;
  waitat = 0;
  waiting = 0;
  cap = if size == 0 then 255 else (if size == 1 then 1 else size - 1);
  blocked = false;
  blocking = true;
  ack = false;
  err = false;
}

unfoldable pub send : List ℕ → UtilChunks → UtilChunks
send p c = record c { writing = c.writing ++ p ∷ [] }

-- The bytes that the newest chunk still wants.
unfoldable pub quota : List Chunk → ℕ
quota [] = 0
quota (h ∷ cs) = h.size - length h.payload

-- `util_chunk_new` and what `_util_chunks_append` notes of a size byte.
unfoldable pub open_chunk : ℕ → UtilChunks → UtilChunks
open_chunk b c = record c {
  reading = record { size = b; payload = [] } ∷ c.reading;
  blocked = false;
  ack = if b == 0 then c.ack else true;
}

unfoldable pub fill : List ℕ → List Chunk → List Chunk
fill bytes [] = []
fill bytes (h ∷ cs) = record h { payload = h.payload ++ bytes } ∷ cs

-- `_util_chunks_append`; the fuel bounds its calls of itself, each of which has less to read.
unfoldable pub append_loop : ℕ → List ℕ → UtilChunks → UtilChunks
unfolding open_chunk fill quota
append_loop zero bytes c = c
append_loop (suc k) [] c = c
append_loop (suc k) (b ∷ bytes) c =
    let fresh = append_loop k bytes (open_chunk b c) in
    let n : ℕ = min (length (b ∷ bytes)) (quota c.reading) in
    let filled =
      append_loop k (drop n (b ∷ bytes))
        (record c { reading = fill (take n (b ∷ bytes)) c.reading }) in
    if quota c.reading == 0 then fresh else filled

-- `util_chunks_read`, which returns NULL only where nothing was ever read.
unfoldable pub read : List ℕ → UtilChunks → UtilChunks
unfolding append_loop
read bytes c = append_loop (length bytes) bytes c

-- `util_chunks_chunk`: the low byte of the size, and then the chunk.
unfoldable pub read_chunk : List ℕ → UtilChunks → UtilChunks
unfolding read
read_chunk bytes c = read bytes (read (length bytes % 256 ∷ []) c)

unfoldable pub split_at :
    Chunk → List Chunk → Option (List Chunk × List Chunk) → Option (List Chunk × List Chunk)
split_at h cs none = if h.size == 0 then some ([], cs) else none
split_at h cs (some (newer, older)) = some (h ∷ newer, older)

-- The chunks above and below the oldest empty one.
unfoldable pub split_flush : List Chunk → Option (List Chunk × List Chunk)
unfolding split_at
split_flush [] = none
split_flush (h ∷ cs) = split_at h cs (split_flush cs)

-- The payloads, the oldest first.
unfoldable pub join : List Chunk → List ℕ
join [] = []
join (h ∷ cs) = join cs ++ h.payload

module _ (js0n : List ℕ → Bool) where
  unfoldable pub receive_split :
      (UtilChunks → Option (List ℕ) × UtilChunks)
      → Option (List Chunk × List Chunk)
      → UtilChunks
      → Option (List ℕ) × UtilChunks
  unfolding join
  receive_split again none c = (none, c)
  receive_split again (some (newer, [])) c = again (record c { reading = newer })
  receive_split again (some (newer, h ∷ older)) c =
      let packet = lob_direct js0n (join (h ∷ older)) in
      (packet, record c { reading = newer; ack = true; err = not (is_some packet) })

  -- A lone empty chunk is dropped, and the rest looked at again.
  unfoldable pub receive_loop : ℕ → UtilChunks → Option (List ℕ) × UtilChunks
  unfolding receive_split split_flush
  receive_loop zero c = (none, c)
  receive_loop (suc k) c = receive_split (λ d. receive_loop k d) (split_flush c.reading) c

  unfoldable pub receive : UtilChunks → Option (List ℕ) × UtilChunks
  unfolding receive_loop
  receive c = receive_loop (suc (length c.reading)) c

-- `util_chunks_len`, which also sets `waiting`.
unfoldable pub chunks_len_of : List (List ℕ) → UtilChunks → ℕ × UtilChunks
chunks_len_of [] c = (if c.ack then 1 else 0, c)
chunks_len_of (p ∷ ps) c =
    let avail : ℕ = min (length p - c.writeat) c.cap in
    let d : UtilChunks = if c.waiting == 0 then record c { waiting = avail } else c in
    (if d.waitat == 0 then 1 else d.waiting - (d.waitat - 1), d)

unfoldable pub chunks_len : UtilChunks → ℕ × UtilChunks
unfolding chunks_len_of
chunks_len c = if c.blocked then (0, c) else chunks_len_of c.writing c

-- The bytes of the block that `util_chunks_write` points to.
unfoldable pub write_of : List (List ℕ) → ℕ → UtilChunks → List ℕ
write_of [] n c = c.waiting ∷ []
write_of (p ∷ ps) n c =
    if c.waitat == 0 then c.waiting ∷ [] else take n (drop (c.writeat + (c.waitat - 1)) p)

unfoldable pub write : UtilChunks → List ℕ
unfolding chunks_len write_of
write c = let (n, d) = chunks_len c in if n == 0 then [] else write_of d.writing n d

-- The end of a packet: `len == 1` stands for the byte of an empty chunk.
unfoldable pub end_packet : ℕ → List (List ℕ) → UtilChunks → UtilChunks
end_packet len [] c = c
end_packet len (p ∷ ps) c =
    if len == 1 && c.writeat == length p
    then record c { writing = ps; writeat = 0; blocked = c.blocking }
    else c

-- `waiting` is 0 when it is compared with `cap`.
unfoldable pub end_chunk : ℕ → UtilChunks → UtilChunks
unfolding end_packet
end_chunk len c =
    let d : UtilChunks = record c { writeat = c.writeat + c.waiting; waiting = 0; waitat = 0 } in
    end_packet len d.writing (if d.waiting == d.cap then record d { blocked = d.blocking } else d)

-- `util_chunks_written`; the Boolean tells whether it returned NULL.
unfoldable pub written : ℕ → UtilChunks → UtilChunks × Bool
unfolding chunks_len end_chunk
written len c =
    let (n, d) = chunks_len c in
    let s : UtilChunks = record d { waitat = d.waitat + len; ack = false } in
    if len == 0
    then (c, false)
    else (if ltb n len
        then (d, true)
        else (if ltb s.waiting s.waitat then (end_chunk len s, false) else (s, false)))

-- `util_chunks_size`, `util_chunks_frame`, `util_chunks_peek` and `util_chunks_next`, where `none` is -1
-- or NULL.
unfoldable pub size_of : UtilChunks → Option ℕ × UtilChunks
unfolding chunks_len
size_of c = let (n, d) = chunks_len c in (if n == 0 then none else some d.waiting, d)

unfoldable pub next_of : Option ℕ × UtilChunks → UtilChunks × Bool
unfolding written
next_of (none, c) = (c, true)
next_of (some n, c) = let (d, refused) = written 1 c in if refused then (d, true) else written n d

unfoldable pub next : UtilChunks → UtilChunks × Bool
unfolding size_of next_of
next c = next_of (size_of c)

-- What src/net/tcp4.c does where the socket takes whole blocks: the bytes written, until nothing waits.
unfoldable pub transmit : ℕ → UtilChunks → List ℕ × UtilChunks
unfolding chunks_len write written
transmit zero c = ([], c)
transmit (suc k) c =
    let (n, d) = chunks_len c in
    let rest = transmit k (written n d).0 in if n == 0 then ([], d) else (write d ++ rest.0, rest.1)
