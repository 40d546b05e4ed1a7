-- ===== src/LobList.antt =====
-- src/lib/lob.c, the linked list utilities: packets that are linked in two directions, and from
-- src/chan.c a channel's queue of packets.
use telehash_c.Prelude.{
  ℕ, zero, suc, Bool, true, false, Option, none, some, List, [], ◌∷◌, ◌==◌, if◌then◌else◌,
}
pub mod Members
mod Links
mod Splicing
mod Lists
mod Ends
mod Popping
mod Queue
mod Refinement
mod Tests

-- The fields `next` and `prev` of the packets; a packet is its address, and 0 is NULL.
pub record Heap : Type 0 where
  pub next : ℕ → ℕ
  pub prev : ℕ → ℕ

abbrev pub update : (ℕ → ℕ) → ℕ → ℕ → ℕ → ℕ
update f p v q = if p == q then v else f q

abbrev pub set_next : ℕ → ℕ → Heap → Heap
set_next p v h = record h { next = update h.next p v }

abbrev pub set_prev : ℕ → ℕ → Heap → Heap
set_prev p v h = record h { prev = update h.prev p v }

-- `if(p->next) p->next->prev = p->prev;`
unfoldable pub skip_back : ℕ → Heap → Heap
skip_back p h = if h.next p == 0 then h else set_prev (h.next p) (h.prev p) h

-- `if(p->prev) p->prev->next = p->next;`
unfoldable pub skip_forth : ℕ → Heap → Heap
skip_forth p h = if h.prev p == 0 then h else set_next (h.prev p) (h.next p) h

-- `p->next = p->prev = NULL;`
unfoldable pub clear : ℕ → Heap → Heap
clear p h = set_next p 0 (set_prev p 0 h)

-- Each function takes the first packet of a list, and gives its result and the heap.
unfoldable pub splice_out : ℕ → ℕ → Heap → ℕ × Heap
unfolding clear
splice_out list p h = (if list == p then h.next p else list, clear p h)

unfoldable pub splice : ℕ → ℕ → Heap → ℕ × Heap
unfolding splice_out skip_forth skip_back
splice list p h = if p == 0 then (list, h) else splice_out list p (skip_forth p (skip_back p h))

-- `while(end->next) end = end->next;`, where `none` is a loop that needs more than so many steps.
unfoldable pub last_of : ℕ → ℕ → Heap → Option ℕ
last_of zero end h = none
last_of (suc fuel) end h = elim (h.next end == 0) [
  | true ↦ some end
  | false ↦ last_of fuel (h.next end) h
]

unfoldable pub link_after : ℕ → ℕ → Heap → Heap
link_after end p h = set_next p 0 (set_prev p end (set_next end p h))

unfoldable pub push_at : ℕ → ℕ → Heap → Option ℕ → Option (ℕ × Heap)
unfolding link_after
push_at list p h none = none
push_at list p h (some end) = some (list, link_after end p h)

unfoldable pub push_spliced : ℕ → ℕ → ℕ × Heap → Option (ℕ × Heap)
unfolding push_at last_of
push_spliced fuel p (list, h) =
    if list == 0 then some (p, h) else push_at list p h (last_of fuel list h)

unfoldable pub push : ℕ → ℕ → ℕ → Heap → Option (ℕ × Heap)
unfolding push_spliced splice
push fuel list p h = if p == 0 then some (list, h) else push_spliced fuel p (splice list p h)

-- `lob_pop`: the last packet, whose `next` is the rest.
unfoldable pub pop_at : ℕ → Heap → Option ℕ → Option (ℕ × Heap)
unfolding splice
pop_at list h none = none
pop_at list h (some end) = let (rest, g) = splice list end h in some (end, set_next end rest g)

unfoldable pub pop : ℕ → ℕ → Heap → Option (ℕ × Heap)
unfolding pop_at last_of
pop fuel list h = if list == 0 then some (0, h) else pop_at list h (last_of fuel list h)

-- `lob_shift`: the first packet, whose `next` is the rest.
unfoldable pub shifted : ℕ → ℕ × Heap → ℕ × Heap
shifted list (rest, h) = (list, if list == 0 then h else set_next list rest h)

unfoldable pub shift : ℕ → Heap → ℕ × Heap
unfolding shifted splice
shift list h = shifted list (splice list list h)

unfoldable pub unshift_spliced : ℕ → ℕ × Heap → ℕ × Heap
unshift_spliced p (list, h) = if list == 0 then (p, h) else (p, set_prev list p (set_next p list h))

unfoldable pub unshift : ℕ → ℕ → Heap → ℕ × Heap
unfolding unshift_spliced splice
unshift list p h = if p == 0 then (list, h) else unshift_spliced p (splice list p h)

-- `lob_insert`.
unfoldable pub link_between : ℕ → ℕ → Heap → Heap
link_between after p h =
    let g = set_next p (h.next after) (set_prev p after h) in
    set_next after p (if g.next after == 0 then g else set_prev (g.next after) p g)

unfoldable pub insert_spliced : ℕ → ℕ → ℕ × Heap → ℕ × Heap
unfolding link_between
insert_spliced after p (list, h) =
    if list == 0 then (p, h) else (if after == 0 then (0, h) else (list, link_between after p h))

unfoldable pub insert : ℕ → ℕ → ℕ → Heap → ℕ × Heap
unfolding insert_spliced splice
insert list after p h = if p == 0 then (list, h) else insert_spliced after p (splice list p h)

-- src/chan.c, `chan_receiving`: the first packet of the queue `in`, and the rest.
unfoldable pub detach : ℕ × Heap → ℕ × ℕ × Heap
detach (ret, h) = (ret, h.next ret, set_next ret 0 h)

unfoldable pub receiving : ℕ → Heap → ℕ × ℕ × Heap
unfolding shift detach
receiving list h = if list == 0 then (0, list, h) else detach (shift list h)
