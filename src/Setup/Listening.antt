-- ===== src/Setup/Listening.antt =====
-- js/core.js: middleware, `listen` and `stopListen`.
use telehash_c.Prelude.{
  ℕ, ◌≡◌, refl, sym, ap, ◌∙◌, Option, none, some, List, [], ◌∷◌, ◌++◌, append-nil, arith, All, Bool,
  true, false,
}
use telehash_c.Setup.{
  override, not_listening, abort_failed, filter_aborts, up, error, Mesh, emit, Middleware,
  transport, channel, keystore, rng, other, use_middleware, use_all, all_settled, settled,
  listen_all, stop_aborts, stop_listen,
}

abbrev pub connector : Middleware → Option ℕ
connector (transport listener c) = c
connector (channel handler) = none
connector (keystore get store) = none
connector (rng random_byte) = none
connector other = none

-- The connector of the last middleware that has one.
pub last_connector : Option ℕ → List Middleware → Option ℕ
last_connector found [] = found
last_connector found (mid ∷ mids) = last_connector (override found (connector mid)) mids

use_middleware-connect :
    (mid : Middleware) (m : Mesh)
    → (use_middleware mid m).connect ≡ override m.connect (connector mid)
unfolding use_middleware override
use_middleware-connect (transport l c) m = refl
use_middleware-connect (channel handler) m = refl
use_middleware-connect (keystore get store) m = refl
use_middleware-connect (rng random_byte) m = refl
use_middleware-connect other m = refl

-- Of several transports only the last one's `connect` is kept: `_connect` has the type for its key.
pub use_all_keeps_last :
    (mids : List Middleware) (m : Mesh) → (use_all mids m).connect ≡ last_connector m.connect mids
unfolding use_all last_connector
use_all_keeps_last [] m = refl
use_all_keeps_last (mid ∷ mids) m =
    use_all_keeps_last mids _
    ∙ ap (λ (c : Option ℕ). last_connector c mids) (use_middleware-connect mid m)

-- No abort function throws.
abbrev pub Quiet : (ℕ → Option Bool) → List ℕ → Type 0
Quiet answer = All (λ abort. (said : Bool) × (answer abort ≡ some said))

filter_aborts-Quiet :
    (answer : ℕ → Option Bool) (aborts : List ℕ)
    → Quiet answer aborts
    → filter_aborts answer aborts ≡ (aborts, some [])
unfolding filter_aborts
filter_aborts-Quiet answer [] quiet = refl
filter_aborts-Quiet answer (abort ∷ aborts) ((true, e), quiet) =
    rw (filter_aborts, e, filter_aborts-Quiet answer aborts quiet) refl
filter_aborts-Quiet answer (abort ∷ aborts) ((false, e), quiet) =
    rw (filter_aborts, e, filter_aborts-Quiet answer aborts quiet) refl

-- The loop ends at the first function that throws.
filter_aborts-throws :
    (answer : ℕ → Option Bool) (before : List ℕ) (bad : ℕ) (after : List ℕ)
    → Quiet answer before
    → answer bad ≡ none
    → filter_aborts answer (before ++ bad ∷ after) ≡ (before ++ bad ∷ [], none)
unfolding filter_aborts
filter_aborts-throws answer [] bad after quiet e = rw (filter_aborts, e) refl
filter_aborts-throws answer (abort ∷ before) bad after ((said, s), quiet) e =
    rw (filter_aborts, s, filter_aborts-throws answer before bad after quiet e) refl

stop_aborts-Quiet :
    (answer : ℕ → Option Bool) (aborts : List ℕ) (m : Mesh)
    → Quiet answer aborts
    → stop_aborts answer (some aborts) m
      ≡ (none, record m { aborts = some []; aborted = m.aborted ++ aborts })
unfolding stop_aborts
stop_aborts-Quiet answer aborts m quiet =
    let e = filter_aborts-Quiet answer aborts quiet in rw (stop_aborts, e, e) refl

stop_aborts-throws :
    (answer : ℕ → Option Bool) (before : List ℕ) (bad : ℕ) (after : List ℕ) (m : Mesh)
    → Quiet answer before
    → answer bad ≡ none
    → stop_aborts answer (some (before ++ bad ∷ after)) m
      ≡ (some abort_failed, record m { aborted = m.aborted ++ (before ++ bad ∷ []) })
unfolding stop_aborts
stop_aborts-throws answer before bad after m quiet e =
    let loop = filter_aborts-throws answer before bad after quiet e in
    rw (stop_aborts, loop, loop) refl

module _ (outcome : ℕ → Option ℕ) where
  -- Each listener's promise is fulfilled with its abort function.
  abbrev pub AllListen : List ℕ → List ℕ → Type 0
  AllListen [] [] = Unit
  AllListen [] (abort ∷ aborts) = ⊥
  AllListen (f ∷ fs) [] = ⊥
  AllListen (f ∷ fs) (abort ∷ aborts) = (outcome f ≡ some abort) × AllListen fs aborts

  all_settled-AllListen :
      (fs aborts : List ℕ) → AllListen fs aborts → all_settled outcome fs ≡ some aborts
  unfolding all_settled
  all_settled-AllListen [] [] h = refl
  all_settled-AllListen [] (abort ∷ aborts) h = absurd h
  all_settled-AllListen (f ∷ fs) [] h = absurd h
  all_settled-AllListen (f ∷ fs) (abort ∷ aborts) h =
      rw (all_settled, h.0, all_settled-AllListen fs aborts h.1) refl

  -- When every transport listens and no abort function throws, whatever they return, the Mesh comes up;
  -- a first `stopListen` calls the abort function of each transport once, in the order of the
  -- transports, and a second one calls none.
  pub listen_then_stop :
      (answer : ℕ → Option Bool) (m : Mesh) (aborts : List ℕ)
      → AllListen m.listen aborts
      → Quiet answer aborts
      → let up_now = listen_all outcome m in
        let stopped = stop_listen answer up_now in
        (up_now.emitted ≡ m.emitted ++ up ∷ [])
        × (stopped.0 ≡ none)
        × (stopped.1.aborted ≡ m.aborted ++ aborts)
        × (stop_listen answer stopped.1 ≡ stopped)
  unfolding stop_listen stop_aborts listen_all settled emit
  listen_then_stop answer m aborts h quiet =
      let u : Mesh = emit up (record m { aborts = some aborts }) in
      let v : Mesh = record u { aborts = some []; aborted = m.aborted ++ aborts } in
      let first = stop_aborts-Quiet answer aborts u quiet in
      let second = stop_aborts-Quiet answer [] v tt in
      rw (all_settled-AllListen m.listen aborts h) (
        refl,
        ap (λ r. r.0) first,
        ap (λ r. r.1.aborted) first,
        ap (λ r. stop_aborts answer r.1.aborts r.1) first
            ∙ second
            ∙ ap (λ l. (none, record v { aborted = l })) (append-nil (m.aborted ++ aborts))
            ∙ sym first,
      )

  -- When every transport listens and one abort function throws, then the first `stopListen` calls those
  -- up to it and throws, and a second one calls the same again, none of those behind it.
  pub stop_again :
      (answer : ℕ → Option Bool) (m : Mesh) (before : List ℕ) (bad : ℕ) (after : List ℕ)
      → AllListen m.listen (before ++ bad ∷ after)
      → Quiet answer before
      → answer bad ≡ none
      → let stopped = stop_listen answer (listen_all outcome m) in
        let again = stop_listen answer stopped.1 in
        (stopped.0 ≡ some abort_failed)
        × (again.0 ≡ some abort_failed)
        × (again.1.aborted ≡ (m.aborted ++ (before ++ bad ∷ [])) ++ (before ++ bad ∷ []))
  unfolding stop_listen stop_aborts listen_all settled emit
  stop_again answer m before bad after h quiet e =
      let u : Mesh = emit up (record m { aborts = some (before ++ bad ∷ after) }) in
      let v : Mesh = record u { aborted = m.aborted ++ (before ++ bad ∷ []) } in
      let first = stop_aborts-throws answer before bad after u quiet e in
      let second =
        ap (λ r. stop_aborts answer r.1.aborts r.1) first
        ∙ stop_aborts-throws answer before bad after v quiet e in
      rw (all_settled-AllListen m.listen (before ++ bad ∷ after) h)
        (ap (λ r. r.0) first, ap (λ r. r.0) second, ap (λ r. r.1.aborted) second)

  -- If one transport fails to listen, an error is emitted and not 'up', and no abort function is kept:
  -- a Mesh that never listened before cannot be stopped.
  pub failed_listen :
      (answer : ℕ → Option Bool) (m : Mesh)
      → all_settled outcome m.listen ≡ none
      → m.aborts ≡ none
      → ((listen_all outcome m).emitted ≡ m.emitted ++ error ∷ [])
        × ((stop_listen answer (listen_all outcome m)).0 ≡ some not_listening)
  unfolding stop_listen stop_aborts listen_all settled emit
  failed_listen answer m h e = ground arith
