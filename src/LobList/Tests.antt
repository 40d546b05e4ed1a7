-- ===== src/LobList/Tests.antt =====
-- src/lib/lob.c: runs of the list utilities, and the theorems at concrete inputs.
use telehash_c.Prelude.{ℕ, ◌≡◌, refl, none, some, List, [], ◌∷◌, arith, ◌==◌, if◌then◌else◌}
use telehash_c.LobList.{Heap, push, pop, insert}
use telehash_c.LobList.Links.{IsList}
use telehash_c.LobList.Lists.{Holds}
use telehash_c.LobList.Popping.{pop-push}
use telehash_c.LobList.Queue.{Call, pushes, unshifts, splices, receives, State, run, plain_run}
use telehash_c.LobList.Refinement.{nothing, run-plain_run}

abbrev calls : List Call
calls =
    pushes 3
    ∷ pushes 5
    ∷ unshifts 8
    ∷ pushes 3
    ∷ splices 5
    ∷ pushes 0
    ∷ receives
    ∷ receives
    ∷ receives
    ∷ []

-- The heap of the list 3, 5.
abbrev two : Heap
two = record { next = λ p. if p == 3 then 5 else 0; prev = λ p. if p == 5 then 3 else 0 }

push_fresh :
    (r : ℕ × Heap) × (push 9 3 8 two ≡ some r) × (r.0 ≡ 3) × (r.1.next 5 ≡ 8) × (r.1.prev 8 ≡ 5)
unfolding push
push_fresh = (_, refl, refl, refl, refl)

insert_last : ((insert 3 5 8 two).1.next 5 ≡ 8) × ((insert 3 5 8 two).1.prev 8 ≡ 5)
unfolding insert
insert_last = (refl, refl)

insert_between : ((insert 3 3 8 two).1.next 8 ≡ 5) × ((insert 3 3 8 two).1.prev 5 ≡ 8)
unfolding insert
insert_between = (refl, refl)

pop_none : pop 9 0 two ≡ some (0, two)
unfolding pop
pop_none = refl

two-Holds : Holds (3 ∷ 5 ∷ []) 3 two
two-Holds = (
  (refl, (refl, (refl, tt)), (refl, (refl, tt)), refl, (refl, (refl, tt))),
  λ q out. (ground arith, ground arith),
)

-- A walk that needs more steps than it has.
short_fuel : push 1 3 8 two ≡ none
unfolding push
short_fuel = refl

run-plain_run_example :
    (t : State) × (run 9 calls nothing ≡ some t)
    × (t.received ≡ 0 ∷ 3 ∷ 8 ∷ [])
    × Holds [] t.list t.heap
unfolding plain_run
run-plain_run_example = run-plain_run 9 calls (omega arith)

pop-push_example :
    (list' : ℕ) × (h' g : Heap) × (push 9 3 3 two ≡ some (list', h'))
    × (pop 9 list' h' ≡ some (3, g))
    × IsList (5 ∷ []) (g.next 3) g
pop-push_example = pop-push 9 (3 ∷ 5 ∷ []) 3 3 two refl (omega arith) two-Holds
