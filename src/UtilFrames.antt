-- ===== src/UtilFrames.antt =====
-- src/util/frames.c: packets cut into a header frame and a body frame, and put together again.
-- A packet is its bytes, `lob_raw` and `lob_len`; `js0n` of src/lib/js0n.c is a parameter. Numbers of
-- four bytes are stored with the least significant byte first. A read past the end of the data
-- given is the outcome `overrun`.
use telehash_c.Prelude.{
  ℕ, zero, suc, ◌+◌, ◌*◌, ◌-◌, ◌/◌, ◌%◌, ◌^◌, Bool, true, false, not, ◌&&◌, ◌||◌, Option, none,
  some, List, [], ◌∷◌, ◌++◌, ltb, ◌==◌, if◌then◌else◌, length, take, drop,
}
pub mod Queue
mod Framing
mod Splitting
mod Steps
mod Limits
mod Draining
mod Transfer
mod Tests

-- `in` is a block of `inlen` bytes, the first `inat` of which are `filled`; `out` has `outlen` bytes.
pub record UtilFrames : Type 0 where
  pub magic : ℕ
  pub max : ℕ
  pub filled : List ℕ
  pub inlen : ℕ
  pub out : List ℕ
  pub inbox : List (Option (List ℕ))
  pub outbox : List (Option (List ℕ))
  pub is_receiving : Bool
  pub is_sending : Bool
  pub inbox_err : Bool

-- What `util_frames_inbox` does: NULL or the frames, or a read past the data.
pub data Outcome : Type 0 where
  overrun : Outcome
  refused : UtilFrames → Outcome
  accepted : UtilFrames → Outcome

unfoldable pub new : ℕ → ℕ → UtilFrames
new magic max = record {
  magic = magic;
  max = max;
  filled = [];
  inlen = 0;
  out = [];
  inbox = [];
  outbox = [];
  is_receiving = false;
  is_sending = false;
  inbox_err = false;
}

unfoldable pub clear : UtilFrames → UtilFrames
clear f = record f { filled = []; inlen = 0; inbox_err = false }

unfoldable pub is_ok : UtilFrames → Bool
is_ok f = not f.inbox_err

-- The bytes of a 32-bit number, and the number of four bytes.
unfoldable pub to_bytes : ℕ → List ℕ
to_bytes n = (n % 256) ∷ (n / 256 % 256) ∷ (n / 65536 % 256) ∷ (n / 16777216 % 256) ∷ []

unfoldable pub from_bytes : ℕ → ℕ → ℕ → ℕ → ℕ
from_bytes a b c d = a + 256 * b + 65536 * c + 16777216 * d

unfoldable pub read_header : List ℕ → Option (ℕ × ℕ)
unfolding from_bytes
read_header (a ∷ b ∷ c ∷ d ∷ e ∷ f ∷ g ∷ h ∷ rest) = some (from_bytes a b c d, from_bytes e f g h)
read_header bytes = none

-- A packet that was taken or freed is a null pointer.
unfoldable pub raw : Option (List ℕ) → List ℕ
raw none = []
raw (some p) = p

unfoldable pub send : List ℕ → UtilFrames → UtilFrames × Bool
send p f =
    if ltb (length p) 8
    then (f, false)
    else (record f { outbox = Queue.append f.outbox (some p); is_sending = false }, true)

unfoldable pub receive : UtilFrames → Option (List ℕ) × UtilFrames
receive f =
    (Queue.first f.inbox, record f { inbox = Queue.take_first f.inbox; is_receiving = false })

unfoldable pub total : List (Option (List ℕ)) → ℕ
unfolding raw
total [] = 0
total (p ∷ q) = (length (raw p) + total q) % 2 ^ 32

unfoldable pub is_pending : UtilFrames → Bool
is_pending f = not (total f.outbox == 0)

unfoldable pub is_busy : UtilFrames → Bool
is_busy f = ltb 0 ((total f.inbox + total f.outbox) % 2 ^ 32)

-- `util_frames_awaiting`: the buffer for a header, if there is none.
unfoldable pub prepare : UtilFrames → UtilFrames
prepare f = if f.inlen == 0 then record f { filled = []; inlen = 8 } else f

unfoldable pub awaiting : UtilFrames → ℕ × UtilFrames
unfolding prepare
awaiting f = ((prepare f).inlen - length (prepare f).filled, prepare f)

unfoldable pub check_header : Option (ℕ × ℕ) → UtilFrames → Outcome
check_header none f = overrun
check_header (some (magic, len)) f =
    if not (magic == f.magic) || ltb f.max len
    then refused (record f { filled = []; inlen = 0; inbox_err = true })
    else accepted (record f { filled = []; inlen = len; inbox_err = false })

unfoldable pub free_empties : Bool → List (Option (List ℕ)) → List (Option (List ℕ))
free_empties locked q = if locked then q else Queue.drop_empties q

-- `return (more)?util_frames_inbox(frames,more,morelen):frames`
unfoldable pub resume : List ℕ → (UtilFrames → Outcome) → Outcome → Outcome
resume [] again o = o
resume (b ∷ more) again overrun = overrun
resume (b ∷ more) again (refused f) = refused f
resume (b ∷ more) again (accepted f) = again f

module _ (js0n : List ℕ → Bool) where
  -- src/lib/lob.c: `lob_direct`, with the head's length in network byte order.
  unfoldable pub lob_direct : List ℕ → Option (List ℕ)
  lob_direct (a ∷ b ∷ rest) =
      let hlen : ℕ = 256 * a + b in
      if ltb (length rest) hlen || (not (ltb hlen 7) && not (js0n (take hlen rest)))
      then none
      else some (a ∷ b ∷ rest)
  lob_direct short = none

  -- A complete frame: the header is read from `data`, a packet from the block.
  unfoldable pub complete : List ℕ → ℕ → UtilFrames → Outcome
  complete bytes await f =
      if f.inlen == 8
      then check_header (read_header bytes) f
      else accepted (record f {
        inbox =
            Queue.append (free_empties f.is_receiving f.inbox)
              (lob_direct (f.filled ++ take await bytes));
        filled = [];
        inlen = 0;
      })

  -- The fuel bounds the calls of itself: each has at least one byte less to read.
  unfoldable pub inbox_loop : ℕ → UtilFrames → List ℕ → Outcome
  unfolding awaiting complete resume
  inbox_loop zero f bytes = refused f
  inbox_loop (suc k) f bytes =
      let g : UtilFrames = (awaiting f).1 in
      let await : ℕ = (awaiting f).0 in
      if ltb (length bytes) await
      then accepted (record g { filled = g.filled ++ bytes })
      else resume (drop await bytes) (λ h. inbox_loop k h (drop await bytes))
          (complete bytes await g)

  unfoldable pub inbox : UtilFrames → List ℕ → Outcome
  unfolding inbox_loop
  inbox f bytes = inbox_loop (length bytes) f bytes

unfoldable pub load : List (Option (List ℕ)) → UtilFrames → UtilFrames × Option (List ℕ)
unfolding to_bytes raw
load [] f = (record f { outbox = [] }, none)
load (p ∷ q) f =
    let header : List ℕ = to_bytes f.magic ++ to_bytes (length (raw p)) in
    (record f { outbox = p ∷ q; out = header }, some header)

unfoldable pub outbox : UtilFrames → UtilFrames × Option (List ℕ)
unfolding free_empties load
outbox f =
    if length f.out == 0 then load (free_empties f.is_sending f.outbox) f else (f, some f.out)

unfoldable pub advance : List (Option (List ℕ)) → UtilFrames → UtilFrames
unfolding raw
advance [] f = f
advance (p ∷ q) f =
    if length f.out == 0
    then f
    else (if length f.out == 8
        then record f { out = raw p }
        else record f { out = []; outbox = none ∷ q })

unfoldable pub sent : UtilFrames → UtilFrames
unfolding advance
sent f = advance f.outbox f

-- What `util_frames_sent` returns: NULL for a wrong call, and then whether there is more to go.
unfoldable pub more_after : List (Option (List ℕ)) → UtilFrames → Bool
more_after [] f = false
more_after (p ∷ q) f = if length f.out == 0 then false else is_pending (sent f)

unfoldable pub sent_more : UtilFrames → Bool
unfolding more_after
sent_more f = more_after f.outbox f
