-- ===== src/LobList/Refinement.antt =====
-- src/lib/lob.c and src/chan.c: linked packets are a queue.
use telehash_c.Prelude.{
  ℕ, suc, ◌+◌, ◌≤◌, ◌≡◌, refl, sym, ap, ap₂, subst, ◌⊎◌, ◌∙◌, true, Option, none, some, List, [],
  ◌∷◌, ◌++◌, arith, ◌==◌, length, Bool-cases, inl, inr,
}
use telehash_c.LobList.{Heap, splice, push, unshift, receiving}
use telehash_c.LobList.Members.{has, ◌∉◌, remove, remove-out, length-snoc}
use telehash_c.LobList.Lists.{Holds, HoldsIn, Gives, length-remove, splice-Holds, push-Gives}
use telehash_c.LobList.Ends.{unshift-Holds, receiving-Holds}
use telehash_c.LobList.Queue.{
  Call, pushes, unshifts, splices, receives, State, at, at_some, took, step, then_step, run, Plain,
  plain_receive, plain_step, plain_run, Shows, ShowsIn,
}

at-Shows :
    (xs : List ℕ) (q : Plain) (s : State) (r : ℕ × Heap)
    → q.received ≡ s.received
    → HoldsIn xs r
    → Shows (record q { packets = xs }) (at s r)
unfolding at
at-Shows xs q s (list, heap) same holds = (holds, same)

at_some-Shows :
    (xs : List ℕ) (q : Plain) (s : State) (o : Option (ℕ × Heap))
    → q.received ≡ s.received
    → Gives xs o
    → ShowsIn (record q { packets = xs }) (at_some s o)
unfolding at_some
at_some-Shows xs q s none same gives = gives
at_some-Shows xs q s (some (list, heap)) same gives = at-Shows xs q s (list, heap) same gives

push_null : (fuel list p : ℕ) (h : Heap) → (p == 0) ≡ true → push fuel list p h ≡ some (list, h)
unfolding push
push_null fuel list p h null = rw null refl

unshift_null : (list p : ℕ) (h : Heap) → (p == 0) ≡ true → unshift list p h ≡ (list, h)
unfolding unshift
unshift_null list p h null = rw null refl

splice_null : (list p : ℕ) (h : Heap) → (p == 0) ≡ true → splice list p h ≡ (list, h)
unfolding splice
splice_null list p h null = rw null refl

receiving_null : (list : ℕ) (h : Heap) → list ≡ 0 → receiving list h ≡ (0, list, h)
unfolding receiving
receiving_null list h null = rw null refl

plain_null :
    (c : Call) (p : ℕ) (q : Plain)
    → (p == 0) ≡ true
    → (c ≡ pushes p) ⊎ (c ≡ unshifts p)
    → plain_step c q ≡ q
unfolding plain_step
plain_null c p q null (inl e) = rw (e, null) refl
plain_null c p q null (inr e) = rw (e, null) refl

pushes-Shows :
    (fuel p : ℕ) (q : Plain) (s : State)
    → length q.packets ≤ fuel
    → Shows q s
    → ShowsIn (plain_step (pushes p) q) (at_some s (push fuel s.list p s.heap))
unfolding plain_step
pushes-Shows fuel p q s le (holds, same) = elim (Bool-cases (p == 0)) [
  | inl null ↦
      subst (λ z. ShowsIn z (at_some s (push fuel s.list p s.heap)))
        (sym (plain_null (pushes p) p q null (inl refl)))
        (subst (λ o. ShowsIn q (at_some s o)) (sym (push_null fuel s.list p s.heap null))
          (at_some-Shows q.packets q s (some (s.list, s.heap)) same holds))
  | inr some_packet ↦ rw some_packet (
      at_some-Shows (remove p q.packets ++ p ∷ []) q s (push fuel s.list p s.heap) same
        (push-Gives fuel q.packets p s.list s.heap some_packet le holds))
]

unshifts-Shows :
    (p : ℕ) (q : Plain) (s : State)
    → Shows q s
    → Shows (plain_step (unshifts p) q) (at s (unshift s.list p s.heap))
unfolding plain_step
unshifts-Shows p q s (holds, same) = elim (Bool-cases (p == 0)) [
  | inl null ↦
      subst (λ z. Shows z (at s (unshift s.list p s.heap)))
        (sym (plain_null (unshifts p) p q null (inr refl)))
        (subst (λ r. Shows q (at s r)) (sym (unshift_null s.list p s.heap null))
          (at-Shows q.packets q s (s.list, s.heap) same holds))
  | inr some_packet ↦ rw some_packet (
      at-Shows (p ∷ remove p q.packets) q s (unshift s.list p s.heap) same
        (unshift-Holds q.packets p s.list s.heap some_packet holds))
]

null-remove : (p : ℕ) (xs : List ℕ) → (p == 0) ≡ true → 0 ∉ xs → remove p xs ≡ xs
null-remove p xs null out =
    let e : p ≡ 0 = ground arith in remove-out p xs (ap (λ r. has r xs) e ∙ out)

splices-Shows :
    (p : ℕ) (q : Plain) (s : State)
    → Shows q s
    → Shows (record q { packets = remove p q.packets }) (at s (splice s.list p s.heap))
splices-Shows p q s (holds, same) = elim (Bool-cases (p == 0)) [
  | inl null ↦
      subst (λ r. Shows (record q { packets = remove p q.packets }) (at s r))
        (sym (splice_null s.list p s.heap null))
        (at-Shows (remove p q.packets) q s (s.list, s.heap) same
          (subst (λ l. Holds l s.list s.heap) (sym (null-remove p q.packets null holds.0.3)) holds))
  | inr some_packet ↦
      at-Shows (remove p q.packets) q s (splice s.list p s.heap) same
        (splice-Holds q.packets p s.list s.heap some_packet holds)
]

receives-Shows :
    (packets received : List ℕ) (s : State)
    → Holds packets s.list s.heap
    → received ≡ s.received
    → Shows (plain_receive packets received) (took s (receiving s.list s.heap))
unfolding plain_receive took
receives-Shows [] received s holds same =
    subst (λ (r : ℕ × ℕ × Heap). Shows (plain_receive [] received) (took s r))
      (sym (receiving_null s.list s.heap holds.0.0)) (holds, ap (λ l. 0 ∷ l) same)
receives-Shows (x ∷ packets) received s holds same =
    let (first, rest) = receiving-Holds x packets s.list s.heap holds in
    (rest, ap₂ (λ y l. y ∷ l) (sym first) same)

step-Shows :
    (fuel : ℕ) (c : Call) (q : Plain) (s : State)
    → length q.packets ≤ fuel
    → Shows q s
    → ShowsIn (plain_step c q) (step fuel c s)
unfolding step plain_step
step-Shows fuel (pushes p) q s le shows = pushes-Shows fuel p q s le shows
step-Shows fuel (unshifts p) q s le shows = unshifts-Shows p q s shows
step-Shows fuel (splices p) q s le shows = splices-Shows p q s shows
step-Shows fuel receives q s le (holds, same) = receives-Shows q.packets q.received s holds same

length-plain_receive :
    (packets received : List ℕ)
    → length (plain_receive packets received).packets ≤ suc (length packets)
unfolding plain_receive
length-plain_receive [] received = omega arith
length-plain_receive (x ∷ packets) received = omega arith

length-plain_step :
    (c : Call) (q : Plain) → length (plain_step c q).packets ≤ suc (length q.packets)
unfolding plain_step
length-plain_step (pushes p) q =
    ground (arith, length-remove p q.packets, length-snoc (remove p q.packets) p)
length-plain_step (unshifts p) q = ground (arith, length-remove p q.packets)
length-plain_step (splices p) q = ground (arith, length-remove p q.packets)
length-plain_step receives q = length-plain_receive q.packets q.received

then-Shows :
    (fuel : ℕ) (cs : List Call) (q : Plain) (o : Option State)
    → ShowsIn q o
    → ((s : State) → Shows q s → ShowsIn (plain_run cs q) (run fuel cs s))
    → ShowsIn (plain_run cs q) (then_step (λ t. run fuel cs t) o)
unfolding then_step
then-Shows fuel cs q none shows rest = elim shows [ ]
then-Shows fuel cs q (some s) shows rest = rest s shows

run-Shows :
    (fuel : ℕ) (cs : List Call) (q : Plain) (s : State)
    → length q.packets + length cs ≤ fuel
    → Shows q s
    → ShowsIn (plain_run cs q) (run fuel cs s)
unfolding run plain_run
run-Shows fuel [] q s le shows = shows
run-Shows fuel (c ∷ cs) q s le shows =
    let longer = length-plain_step c q in
    then-Shows fuel cs (plain_step c q) (step fuel c s) (step-Shows fuel c q s (omega arith) shows)
      (λ t shown. run-Shows fuel cs (plain_step c q) t (omega arith) shown)

returned :
    (q : Plain) (o : Option State)
    → ShowsIn q o
    → (t : State) × (o ≡ some t) × (t.received ≡ q.received) × Holds q.packets t.list t.heap
returned q none shows = elim shows [ ]
returned q (some t) (holds, same) = (t, refl, sym same, holds)

unfoldable pub nothing : State
nothing = record { list = 0; heap = record { next = λ p. 0; prev = λ p. 0 }; received = [] }

-- Whatever packets are pushed, unshifted, spliced and received, in whatever order, and NULL too, a list
-- that starts with no packet linked, with as many steps for each walk to the end as there are calls:
-- the calls return, what was received is what a plain list gives, in which a packet that is put in
-- leaves its old place; and the packets are linked in both directions in the order of that list, and no
-- other packet is linked to anything.
pub run-plain_run :
    (fuel : ℕ) (cs : List Call)
    → length cs ≤ fuel
    → (t : State) × (run fuel cs nothing ≡ some t)
      × (t.received ≡ (plain_run cs (record { packets = []; received = [] })).received)
      × Holds (plain_run cs (record { packets = []; received = [] })).packets t.list t.heap
unfolding nothing
run-plain_run fuel cs le =
    returned (plain_run cs (record { packets = []; received = [] })) (run fuel cs nothing) (
      run-Shows fuel cs (record { packets = []; received = [] }) nothing (omega arith)
        (((refl, tt, tt, refl, tt), λ q o. (refl, refl)), refl))
