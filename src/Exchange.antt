-- ===== src/Exchange.antt =====
-- src/e3x/exchange.c: the order of two sides, the numbers of their handshakes and the ids of their
-- channels, and from src/link.c what a link with a key does with a handshake. Numbers have 32 bits.
use telehash_c.Prelude.{
  ℕ, zero, suc, ◌+◌, ◌%◌, ◌^◌, Bool, true, false, not, ◌&&◌, ◌||◌, Option, none, some, List, [],
  ◌∷◌, ◌++◌, ltb, leb, ◌==◌, if◌then◌else◌,
}
mod Ids
mod Receiving
mod Levels
mod Answers
mod Delivery
mod Counting
mod Rounds
mod Agreement
mod Swapping
mod Greeting
mod Replay
mod Tests

-- `ephem` is a pointer and `eid` the sixteen bytes of its id.
pub record Exchange : Type 0 where
  pub in_at : ℕ
  pub out_at : ℕ
  pub cid : ℕ
  pub last : ℕ
  pub order : ℕ
  pub ephem : Option ℕ
  pub eid : ℕ

-- The loop over the remote's key and the own one, where `none` is a read past the own one. Two equal
-- keys leave 0.
unfoldable pub order_of : List ℕ → List ℕ → Option ℕ
order_of [] self = some 0
order_of (k ∷ key) [] = none
order_of (k ∷ key) (s ∷ self) =
    let rest = order_of key self in if k == s then rest else some (if ltb s k then 2 else 1)

-- `e3x_exchange_new`, once the remote was made.
unfoldable pub new : ℕ → Exchange
new order = record {
  in_at = 0;
  out_at = 0;
  cid = order;
  last = 0;
  order = order;
  ephem = none;
  eid = 0;
}

-- `e3x_exchange_out` of a number that is not 0.
unfoldable pub with_order : ℕ → ℕ → ℕ
with_order order at =
    if order == 2
    then (if at % 2 == 0 then at else (at + 1) % 2 ^ 32)
    else (if at % 2 == 0 then (at + 1) % 2 ^ 32 else at)

unfoldable pub set_out : ℕ → Exchange → Exchange
unfolding with_order
set_out at x =
    if not (at == 0) && ltb x.out_at at then record x { out_at = with_order x.order at } else x

-- `e3x_exchange_in`.
unfoldable pub is_newer : ℕ → Exchange → Bool
is_newer at x =
    not (at == 0)
    && (ltb x.in_at at && (leb x.out_at at && ((at % 2 + 1 == x.order) || (at == x.out_at))))

unfoldable pub set_in : ℕ → Exchange → Exchange
unfolding is_newer
set_in at x = if is_newer at x then record x { in_at = at } else x

-- `e3x_exchange_cid` without a packet.
unfoldable pub next_cid : Exchange → ℕ × Exchange
next_cid x = (x.cid, record x { cid = (x.cid + 2) % 2 ^ 32 })

-- `e3x_exchange_cid` of a packet's "c", 0 if it has none; the result 0 refuses it.
unfoldable pub check_cid : ℕ → Exchange → ℕ × Exchange
check_cid c x =
    if c == 0
    then (0, x)
    else (if leb c x.last
        then (0, x)
        else (if c % 2 == x.cid % 2 then (0, x) else (c, record x { last = c })))

unfoldable pub down : Exchange → Exchange
down x = elim x.ephem [
  | none ↦ record x { out_at = 0 }
  | some p ↦ record x { out_at = 0; ephem = none; eid = 0; last = 0 }
]

-- The start of `e3x_exchange_sync`.
unfoldable pub raise_out : Exchange → Exchange
raise_out x = if ltb x.out_at x.in_at then record x { out_at = x.in_at } else x

-- What is done with handshakes of type `H`: `make` encrypts one with the number `out_at`, `verifies` is
-- `e3x_exchange_verify`, `is_long` says that the body has 16 bytes and `eid` is their id, and
-- `ephemeral_new` may fail.
pub record HandshakeApi (H : Type 0) : Type 0 where
  pub make : Exchange → H
  pub at : H → ℕ
  pub verifies : H → Bool
  pub is_long : H → Bool
  pub eid : H → ℕ
  pub ephemeral_new : H → Option ℕ

-- `sent` is what the pipe was given, and `ready` counts the calls of `mesh_link`.
pub record Link (H : Type 0) : Type 0 where
  pub x : Exchange
  pub has_pipe : Bool
  pub sent : List H
  pub handshake : Option H
  pub ready : ℕ

module _ {H : Type 0} (api : HandshakeApi H) where
  -- `e3x_exchange_sync`, and whether it succeeds.
  unfoldable pub new_ephem : ℕ → Option ℕ → Exchange → Bool × Exchange
  new_ephem id none x = (false, x)
  new_ephem id (some p) x = (true, record x { ephem = some p; eid = id; last = 0 })

  unfoldable pub sync_ephem : H → Exchange → Bool × Exchange
  unfolding new_ephem
  sync_ephem h x =
      if api.eid h == x.eid then (true, x) else new_ephem (api.eid h) (api.ephemeral_new h) x

  unfoldable pub exchange_sync : H → Exchange → Bool × Exchange
  unfolding raise_out sync_ephem
  exchange_sync h x = if api.is_long h then sync_ephem h (raise_out x) else (false, x)

  unfoldable pub is_up : Link H → Bool
  is_up l = not (l.x.out_at == 0) && not (l.x.in_at == 0)

  -- `link_sync`: a handshake is made unless no number is set.
  unfoldable pub link_sync : Link H → Link H
  link_sync l =
      if l.has_pipe && not (l.x.out_at == 0)
      then record l { sent = l.sent ++ api.make l.x ∷ [] }
      else l

  -- The end of `link_load`, at a time in seconds, and `link_pipe` of a link that had no pipe.
  unfoldable pub load : ℕ → ℕ → Link H
  unfolding new set_out
  load order now = record {
    x = set_out now (new order);
    has_pipe = false;
    sent = [];
    handshake = none;
    ready = 0;
  }

  unfoldable pub link_pipe : Link H → Link H
  unfolding link_sync
  link_pipe l = link_sync (record l { has_pipe = true })

  -- `link_resync`.
  unfoldable pub resync : Link H → Link H
  unfolding set_out link_sync
  resync l = link_sync (record l { x = set_out ((l.x.out_at + 1) % 2 ^ 32) l.x })

  -- `link_receive_handshake` of a link with a key, from the end.
  unfoldable pub notify : Bool → Link H → Link H
  unfolding is_up
  notify was_up l = if not was_up && is_up l then record l { ready = suc l.ready } else l

  unfoldable pub resync_if : Bool → Link H → Link H
  unfolding link_sync
  resync_if same l = if same then l else link_sync l

  unfoldable pub settle : ℕ → Bool → H → Bool × Exchange → Link H → Link H
  unfolding resync_if notify
  settle out was_up h (false, x) l = record l { x = x }
  settle out was_up h (true, x) l =
      record (notify was_up (resync_if (out == x.out_at) (record l { x = x }))) {
        handshake = some h;
      }

  unfoldable pub take_handshake : H → Exchange → Link H → Link H
  unfolding link_sync exchange_sync settle is_up
  take_handshake h x l =
      if ltb x.in_at l.x.out_at
      then link_sync (record l { x = x })
      else settle l.x.out_at (is_up l) h (exchange_sync h x) l

  unfoldable pub receive_handshake : H → Link H → Link H
  unfolding take_handshake set_in
  receive_handshake h l = if api.verifies h then take_handshake h (set_in (api.at h) l.x) l else l
