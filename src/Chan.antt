-- ===== src/Chan.antt =====
-- src/chan.c: a channel's queue of incoming packets and its timeout, and from src/link.c the pass over a
-- link's channels. Times are 32-bit numbers.
use telehash_c.Prelude.{
  ℕ, zero, suc, ◌+◌, ◌-◌, ◌%◌, ◌^◌, Bool, true, false, not, ◌&&◌, ◌||◌, String, Option, none, some,
  List, [], ◌∷◌, ◌++◌, ltb, ◌==◌, if◌then◌else◌, length,
}
mod Receiving
mod Timing
mod Tests

pub data ChanState : Type 0 where
  ended opening opened : ChanState

-- `P` is the type of packets; `sent` is what `chan_send` gave to the link.
pub record Chan (P : Type 0) : Type 0 where
  pub id : ℕ
  pub kind : String
  pub state : ChanState
  pub incoming : List P
  pub sent : List P
  pub trecv : ℕ
  pub timeout : ℕ
  pub has_handle : Bool
  pub has_link : Bool

-- `chan_new` of an open packet's "c" and "type".
unfoldable pub new : {P : Type 0} → ℕ → Option String → Option (Chan P)
new id none = none
new id (some kind) =
    if id == 0
    then none
    else some (record {
      id = id;
      kind = kind;
      state = opening;
      incoming = [];
      sent = [];
      trecv = 0;
      timeout = 0;
      has_handle = false;
      has_link = false;
    })

-- `lob_get(packet,"end")`, and the packet that `chan_err` makes for a channel and a message.
pub record PacketApi (P : Type 0) : Type 0 where
  pub is_end : P → Bool
  pub make_err : ℕ → String → P

module _ {P : Type 0} where
  unfoldable pub set_timeout : ℕ → Chan P → ℕ × Chan P
  set_timeout time c = if time == 0 then (c.timeout, c) else (time, record c { timeout = time })

  unfoldable pub receive : P → Chan P → Chan P
  receive p c = record c { incoming = c.incoming ++ p ∷ [] }

  -- Without a link the packet is dropped.
  unfoldable pub send : P → Chan P → Chan P
  send p c = if c.has_link then record c { sent = c.sent ++ p ∷ [] } else c

  unfoldable pub handle : Chan P → Chan P
  handle c = record c { has_handle = true }

module _ {P : Type 0} (api : PacketApi P) where
  unfoldable pub shift : List P → Chan P → Option P × Chan P
  shift [] c = (none, c)
  shift (p ∷ ps) c =
      (some p, record c { incoming = ps; state = if api.is_end p then ended else c.state })

  unfoldable pub receiving : Chan P → Option P × Chan P
  unfolding shift
  receiving c = shift c.incoming c

  unfoldable pub err : String → Chan P → Chan P
  err msg c = record c { incoming = c.incoming ++ api.make_err c.id msg ∷ [] }

  -- The timeout checks of `chan_process`.
  unfoldable pub check_timeout : ℕ → Chan P → Chan P
  unfolding err
  check_timeout now c =
      if c.timeout == 0
      then c
      else (if ltb c.timeout now
          then err "timeout" (record c { timeout = 0 })
          else (if c.trecv == 0
              then c
              else record c { timeout = (c.timeout + (now + 2 ^ 32 - c.trecv)) % 2 ^ 32 }))

  unfoldable pub check_time : ℕ → Chan P → Chan P
  unfolding check_timeout
  check_time now c = if now == 0 then c else record (check_timeout now c) { trecv = now }

  unfoldable pub is_ended : ChanState → Bool
  is_ended ended = true
  is_ended opening = false
  is_ended opened = false

  unfoldable pub fire : (Chan P → Chan P) → List P → Chan P → Chan P
  fire handler [] c = c
  fire handler (p ∷ ps) c = if c.has_handle then handler c else c

  unfoldable pub unless_ended : Chan P → Option (Chan P)
  unfolding is_ended
  unless_ended c = if is_ended c.state then none else some c

  -- `chan_process`, where `none` is a channel that was freed.
  unfoldable pub process : (Chan P → Chan P) → ℕ → Chan P → Option (Chan P)
  unfolding check_time fire unless_ended
  process handler now c = let d = check_time now c in unless_ended (fire handler d.incoming d)

  -- src/link.c: `link_process_chan`, a list of channels from the last to the first.
  unfoldable pub or_drop : Option (Chan P) → List (Chan P) → List (Chan P)
  or_drop none cs = cs
  or_drop (some c) cs = c ∷ cs

  unfoldable pub process_all : (Chan P → Chan P) → ℕ → List (Chan P) → List (Chan P)
  unfolding process or_drop
  process_all handler now [] = []
  process_all handler now (c ∷ cs) = or_drop (process handler now c) (process_all handler now cs)
