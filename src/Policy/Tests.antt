-- ===== src/Policy/Tests.antt =====
-- Discoveries under some policies.
use text.Mathlib.TextEquality.{eq_iff}
use telehash_c.Prelude.{◌≡◌, ◌⊎◌, inl, refl, true, false, [], ◌∷◌}
use telehash_c.Prelude.Maps
use telehash_c.Policy.{
  Policy, fresh, accept, reject, listen, ignore, add, offer, global_answer, frames_answer, accepts,
  listens, change, run,
}
use telehash_c.Policy.Decisions.{add_iff, one_callback_acts, rejected_for_good, accept_closes}

open_adds : global_answer "alice" fresh ≡ add
unfolding global_answer Maps.contains
open_adds = refl

listener_is_offered : frames_answer "alice" (run (listens ∷ accepts "bob" ∷ []) fresh) ≡ offer
unfolding run change listen accept frames_answer Maps.contains Maps.add
listener_is_offered = refl

add_iff_case : global_answer "bob" (record fresh { accepted = "bob" ∷ []; listeners = 1 }) ≡ add
unfolding Maps.contains
add_iff_case =
    (add_iff "bob" (record fresh { accepted = "bob" ∷ []; listeners = 1 })).1 (refl, inl refl)

rejected_for_good_case :
    (global_answer "bob" (run (accepts "bob" ∷ []) (reject "bob" fresh)) ≡ ignore)
    × (frames_answer "bob" (run (accepts "bob" ∷ []) (reject "bob" fresh)) ≡ ignore)
rejected_for_good_case = rejected_for_good "bob" (accepts "bob" ∷ []) fresh

accept_closes_case : global_answer "bob" (accept "alice" fresh) ≡ ignore
unfolding Maps.contains
accept_closes_case =
    accept_closes "alice" "bob" fresh (λ e. let h : false ≡ true = (eq_iff "alice" "bob").1 e in cc)
      refl

abbrev closed : Policy
closed = record { accepted = "bob" ∷ []; rejected = "eve" ∷ []; listeners = 0 }

one_callback_acts_example :
    ((Maps.contains closed.rejected "alice" ≡ true)
      × (global_answer "alice" closed ≡ ignore)
      × (frames_answer "alice" closed ≡ ignore))
    ⊎ (((Maps.contains closed.rejected "alice" ≡ false)
          × (global_answer "alice" closed ≡ add)
          × (frames_answer "alice" closed ≡ ignore))
        ⊎ ((Maps.contains closed.rejected "alice" ≡ false)
            × (global_answer "alice" closed ≡ ignore)
            × (frames_answer "alice" closed ≡ offer)))
one_callback_acts_example = one_callback_acts "alice" closed
