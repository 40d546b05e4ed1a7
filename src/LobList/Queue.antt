-- ===== src/LobList/Queue.antt =====
-- src/lib/lob.c and src/chan.c: a list of packets under a row of calls, and the same with plain lists.
use telehash_c.Prelude.{ℕ, ◌≡◌, Option, none, some, List, [], ◌∷◌, ◌++◌, ◌==◌, if◌then◌else◌}
use telehash_c.LobList.{Heap, splice, push, unshift, receiving}
use telehash_c.LobList.Members.{remove}
use telehash_c.LobList.Lists.{Holds}

-- What is done with the packets of a queue: `lob_push`, `lob_unshift`, `lob_splice` and `chan_receiving`.
pub data Call : Type 0 where
  pushes unshifts splices : ℕ → Call
  receives : Call

-- A queue in the heap, with the packets received so far, the last one first.
pub record State : Type 0 where
  pub list : ℕ
  pub heap : Heap
  pub received : List ℕ

unfoldable pub at : State → ℕ × Heap → State
at s (list, heap) = record s { list = list; heap = heap }

unfoldable pub at_some : State → Option (ℕ × Heap) → Option State
unfolding at
at_some s none = none
at_some s (some r) = some (at s r)

unfoldable pub took : State → ℕ × ℕ × Heap → State
took s (p, list, heap) = record s { list = list; heap = heap; received = p ∷ s.received }

unfoldable pub step : ℕ → Call → State → Option State
unfolding push unshift splice receiving at at_some took
step fuel (pushes p) s = at_some s (push fuel s.list p s.heap)
step fuel (unshifts p) s = some (at s (unshift s.list p s.heap))
step fuel (splices p) s = some (at s (splice s.list p s.heap))
step fuel receives s = some (took s (receiving s.list s.heap))

unfoldable pub then_step : (State → Option State) → Option State → Option State
then_step rest none = none
then_step rest (some s) = rest s

unfoldable pub run : ℕ → List Call → State → Option State
unfolding step then_step
run fuel [] s = some s
run fuel (c ∷ cs) s = then_step (λ t. run fuel cs t) (step fuel c s)

-- The same with a plain list: a packet that is put in is taken out of its old place, and NULL is
-- ignored, or received where there is no packet.
pub record Plain : Type 0 where
  pub packets : List ℕ
  pub received : List ℕ

unfoldable pub plain_receive : List ℕ → List ℕ → Plain
plain_receive [] received = record { packets = []; received = 0 ∷ received }
plain_receive (p ∷ packets) received = record { packets = packets; received = p ∷ received }

unfoldable pub plain_step : Call → Plain → Plain
unfolding plain_receive
plain_step (pushes p) q = if p == 0 then q else record q { packets = remove p q.packets ++ p ∷ [] }
plain_step (unshifts p) q = if p == 0 then q else record q { packets = p ∷ remove p q.packets }
plain_step (splices p) q = record q { packets = remove p q.packets }
plain_step receives q = plain_receive q.packets q.received

unfoldable pub plain_run : List Call → Plain → Plain
unfolding plain_step
plain_run [] q = q
plain_run (c ∷ cs) q = plain_run cs (plain_step c q)

-- The two agree.
abbrev pub Shows : Plain → State → Type 0
Shows q s = Holds q.packets s.list s.heap × (q.received ≡ s.received)

abbrev pub ShowsIn : Plain → Option State → Type 0
ShowsIn q none = ⊥
ShowsIn q (some s) = Shows q s
