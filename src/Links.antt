-- ===== src/Links.antt =====
-- src/link.c: the channels of a link that has a key, as a list of memory blocks, and how the link is taken
-- down and freed. A block is its address, and 0 is NULL.
use telehash_c.Prelude.{
  ℕ, zero, suc, Bool, true, false, not, ◌&&◌, String, Option, none, some, ◌==◌, if◌then◌else◌,
}
use telehash_c.Exchange.{Exchange, next_cid, check_cid}
use telehash_c.Exchange
use telehash_c.Chan.{Chan, PacketApi, err, process}
use telehash_c.Chan
mod Rows
mod Walking
mod Finding
mod Running
mod Holding
mod Keeping
mod Removal
mod Tests

-- `fault` is a read of a block that is not allocated, `more_steps` a walk that needs more steps.
pub data Outcome {ℓ} (A : Type ℓ) : Type ℓ where
  done : A → Outcome A
  fault more_steps : Outcome A

infixl 5 ◌>>=◌
abbrev pub ◌>>=◌ {ℓ κ} : {A : Type ℓ} {B : Type κ} → Outcome A → (A → Outcome B) → Outcome B
done a >>= f = f a
fault >>= f = fault
more_steps >>= f = more_steps

-- The allocated blocks with their channels, and the field `next` of each.
pub record Store (P : Type 0) : Type 0 where
  pub cell : ℕ → Option (Chan P)
  pub next : ℕ → ℕ

-- `reports` counts the calls of `mesh_link`, and `pipe_ends` those of the pipe without a packet.
pub record Link (P : Type 0) : Type 0 where
  pub chans : ℕ
  pub store : Store P
  pub x : Exchange
  pub csid : ℕ
  pub has_pipe : Bool
  pub reports : ℕ
  pub pipe_ends : ℕ

abbrev pub set_at {ℓ} : {A : Type ℓ} → ℕ → A → (ℕ → A) → ℕ → A
set_at c v f d = if c == d then v else f d

-- The id of a channel to open, from the open packet's "c", 0 if it has none.
unfoldable pub give_cid : ℕ → Exchange → ℕ × Exchange
unfolding next_cid
give_cid id x = if id == 0 then next_cid x else (id, x)

module _ {P : Type 0} where
  unfoldable pub read : ℕ → Store P → Outcome (Chan P)
  read c s = elim (s.cell c) [ none ↦ fault | some d ↦ done d ]

  -- A channel that was freed, or what it is now.
  abbrev pub write : ℕ → Option (Chan P) → Store P → Store P
  write c d s = record s { cell = set_at c d s.cell }

  -- `link_chan_get` of an id that is not 0.
  unfoldable pub chan_get : ℕ → ℕ → ℕ → Store P → Outcome ℕ
  unfolding read
  chan_get zero id c s = more_steps
  chan_get (suc fuel) id c s = elim (c == 0) [
    | true ↦ done 0
    | false ↦ read c s >>= λ d. elim (d.id == id) [
      | true ↦ done c
      | false ↦ chan_get fuel id (s.next c) s
    ]
  ]

  -- `link_chan` of an open packet's "c" and "type", and the block that malloc gives.
  unfoldable pub add_chan : ℕ → Option (Chan P) → Link P → Link P
  add_chan at none l = l
  add_chan at (some c) l = record l {
    chans = at;
    store = record {
      cell = set_at at (some (record c { has_link = true })) l.store.cell;
      next = set_at at l.chans l.store.next;
    };
  }

  unfoldable pub link_chan : ℕ → ℕ → Option String → Link P → Link P
  unfolding give_cid add_chan
  link_chan at id kind l =
      let (i, x) = give_cid id l.x in add_chan at (Chan.new i kind) (record l { x = x })

  -- The loop of `link_free` over the channels.
  unfoldable pub free_chans : ℕ → ℕ → Store P → Outcome (Store P)
  unfolding read
  free_chans zero c s = more_steps
  free_chans (suc fuel) c s = elim (c == 0) [
    | true ↦ done s
    | false ↦ read c s >>= λ d. free_chans fuel (s.next c) (write c none s)
  ]

  abbrev pub no_pipe : Link P → Link P
  no_pipe l = if l.has_pipe then record l { has_pipe = false; pipe_ends = suc l.pipe_ends } else l

  -- `link_free`, and the blocks that are left.
  unfoldable pub link_free : ℕ → Link P → Outcome (Store P)
  unfolding free_chans
  link_free fuel l = free_chans fuel l.chans l.store

  unfoldable pub link_up : Link P → Bool
  link_up l = not (l.x.out_at == 0) && not (l.x.in_at == 0)

  unfoldable pub report_down : Link P → Link P
  unfolding link_up
  report_down l =
      if link_up l then record l { x = Exchange.down l.x; reports = suc l.reports } else l

module _ {P : Type 0} (api : PacketApi P) (handler : Chan P → Chan P) where
  -- `link_process_chan`.
  unfoldable pub relink : ℕ → ℕ → Option (Chan P) → Store P → ℕ × Store P
  relink c next none s = (next, write c none s)
  relink c next (some d) s =
      (c, record { cell = set_at c (some d) s.cell; next = set_at c next s.next })

  unfoldable pub process_rest : ℕ → ℕ → ℕ × Store P → Outcome (ℕ × Store P)
  unfolding read relink
  process_rest now c (next, s) =
      read c s >>= λ d. done (relink c next (process api handler now d) s)

  unfoldable pub process_chan : ℕ → ℕ → ℕ → Store P → Outcome (ℕ × Store P)
  unfolding read process_rest
  process_chan zero now c s = more_steps
  process_chan (suc fuel) now c s = elim (c == 0) [
    | true ↦ done (0, s)
    | false ↦ read c s >>= λ d. (process_chan fuel now (s.next c) s >>= process_rest now c)
  ]

  abbrev pub with_chans : Link P → ℕ × Store P → Link P
  with_chans l (c, s) = record l { chans = c; store = s }

  unfoldable pub process_chans : ℕ → ℕ → Link P → Outcome (Link P)
  unfolding process_chan
  process_chans fuel now l = process_chan fuel now l.chans l.store >>= λ r. done (with_chans l r)

  -- `link_receive` of a packet whose channel is there.
  unfoldable pub receive_at : ℕ → P → ℕ → Link P → Outcome (Link P)
  unfolding read process_chans
  receive_at fuel p c l = read c l.store >>= λ d.
      process_chans fuel 0 (record l { store = write c (some (Chan.receive p d)) l.store })

  -- The loop of `link_down` over the channels.
  unfoldable pub end_chans : ℕ → ℕ → Store P → Outcome (Store P)
  unfolding read
  end_chans zero c s = more_steps
  end_chans (suc fuel) c s = elim (c == 0) [
    | true ↦ done s
    | false ↦ read c s >>= λ d.
        end_chans fuel (s.next c) (write c (process api handler 0 (err api "disconnected" d)) s)
  ]

  -- `link_down` leaves the first channel as it was.
  unfoldable pub link_down : ℕ → Link P → Outcome (Link P)
  unfolding report_down end_chans
  link_down fuel l =
      let m = report_down l in
      end_chans fuel m.chans m.store >>= λ s. done (no_pipe (record m { store = s }))

  -- `link_process`: the link, unless it was freed.
  unfoldable pub keep_or_free : ℕ → Link P → Outcome (Option (Link P))
  unfolding link_down link_free
  keep_or_free fuel l = elim (l.csid == 0) [
    | false ↦ done (some l)
    | true ↦ link_down fuel l >>= link_free fuel >>= λ s. done none
  ]

  unfoldable pub link_process : ℕ → ℕ → Link P → Outcome (Option (Link P))
  unfolding process_chans keep_or_free
  link_process fuel now l = elim (now == 0) [
    | true ↦ done (some l)
    | false ↦ process_chans fuel now l >>= keep_or_free fuel
  ]

  -- `link_receive` of a packet with its "c" and "type", where `mesh_open` says whether it was handled;
  -- and whether the packet was taken.
  unfoldable pub open_chan :
      (P → Link P → Bool × Link P) → ℕ → Option String → P → Link P → Bool × Link P
  unfolding check_cid
  open_chan mesh_open id none p l = (false, l)
  open_chan mesh_open id (some kind) p l =
      let (ok, x) = check_cid id l.x in
      elim (ok == 0) [ true ↦ (false, l) | false ↦ mesh_open p (record l { x = x }) ]

  unfoldable pub link_receive :
      (P → Link P → Bool × Link P) → ℕ → ℕ → Option String → P → Link P → Outcome (Bool × Link P)
  unfolding chan_get receive_at open_chan
  link_receive mesh_open fuel id kind p l =
      (elim (id == 0) [ true ↦ done 0 | false ↦ chan_get fuel id l.chans l.store ]) >>= λ c.
      elim (c == 0) [
        | true ↦ done (open_chan mesh_open id kind p l)
        | false ↦ receive_at fuel p c l >>= λ m. done (true, m)
      ]
