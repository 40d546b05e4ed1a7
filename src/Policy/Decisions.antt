-- ===== src/Policy/Decisions.antt =====
-- js/core.js: the answers of the two discovery callbacks of class Mesh and class Frames.
use text.Mathlib.TextEquality.{eq_iff}
use text.Mathlib.TextPositions.{eq_refl}
use telehash_c.Prelude.{
  ◌≡◌, ◌∙◌, ◌⊎◌, ◌↔◌, ◌≢◌, true, false, String, List, [], ◌∷◌, arith, nil_of_length,
}
use telehash_c.Prelude.Maps
use telehash_c.Policy.{
  Policy, accept, reject, listen, unlisten, ignore, add, offer, global_answer, frames_answer,
  Change, accepts, rejects, listens, unlistens, change, run,
}

-- A discovered node is taken in by the global callback exactly when it is not rejected and it is
-- accepted, or nobody was accepted and nobody listens for 'discover'.
pub add_iff :
    (hashname : String) (p : Policy)
    → (global_answer hashname p ≡ add) ↔ (
        (Maps.contains p.rejected hashname ≡ false)
        × ((Maps.contains p.accepted hashname ≡ true) ⊎ ((p.accepted ≡ []) × (p.listeners ≡ 0))))
unfolding global_answer
add_iff hashname p = (λ h. ground (arith, nil_of_length p.accepted), λ h. ground arith)

-- Of the two callbacks at most one acts: a rejected node is ignored by both; any other is either
-- taken in by the global one and ignored by the other, or ignored by the global one and offered.
pub one_callback_acts :
    (hashname : String) (p : Policy)
    → ((Maps.contains p.rejected hashname ≡ true)
        × (global_answer hashname p ≡ ignore)
        × (frames_answer hashname p ≡ ignore))
      ⊎ (((Maps.contains p.rejected hashname ≡ false)
            × (global_answer hashname p ≡ add)
            × (frames_answer hashname p ≡ ignore))
          ⊎ ((Maps.contains p.rejected hashname ≡ false)
              × (global_answer hashname p ≡ ignore)
              × (frames_answer hashname p ≡ offer)))
unfolding global_answer frames_answer
one_callback_acts hashname p = ground arith

change_keeps_rejected :
    (hashname : String) (c : Change) (p : Policy)
    → Maps.contains p.rejected hashname ≡ true
    → Maps.contains (change c p).rejected hashname ≡ true
unfolding change accept reject listen unlisten
change_keeps_rejected hashname (accepts h) p r = r
change_keeps_rejected hashname (rejects h) p r =
    ground (arith, Maps.contains-add p.rejected h hashname)
change_keeps_rejected hashname listens p r = r
change_keeps_rejected hashname unlistens p r = r

run_keeps_rejected :
    (hashname : String) (cs : List Change) (p : Policy)
    → Maps.contains p.rejected hashname ≡ true
    → Maps.contains (run cs p).rejected hashname ≡ true
unfolding run
run_keeps_rejected hashname [] p r = r
run_keeps_rejected hashname (c ∷ cs) p r =
    run_keeps_rejected hashname cs (change c p) (change_keeps_rejected hashname c p r)

-- A rejection is for good: whatever the application accepts or listens for later, both callbacks
-- ignore the node.
pub rejected_for_good :
    (hashname : String) (cs : List Change) (p : Policy)
    → (global_answer hashname (run cs (reject hashname p)) ≡ ignore)
      × (frames_answer hashname (run cs (reject hashname p)) ≡ ignore)
unfolding global_answer frames_answer reject
rejected_for_good hashname cs p =
    let out =
      run_keeps_rejected hashname cs (record p { rejected = Maps.add p.rejected hashname })
        (Maps.contains-add p.rejected hashname hashname ∙ rw (eq_refl hashname)) in
    (rw out, rw out)

-- An acceptance closes an open mesh: afterwards another node, if it was not accepted too, is not taken
-- in by the global callback.
pub accept_closes :
    (hashname other : String) (p : Policy)
    → hashname ≢ other
    → Maps.contains p.accepted other ≡ false
    → global_answer other (accept hashname p) ≡ ignore
unfolding global_answer accept
accept_closes hashname other p d e = ground (
  arith,
  eq_iff hashname other,
  Maps.contains-add p.accepted hashname other,
  Maps.length-add_pos p.accepted hashname,
)
