-- ===== src/Setup/Tests.antt =====
-- Starts of a Mesh.
use telehash_c.Prelude.{
  Bool, ◌==◌, ℕ, ◌≡◌, refl, ◌↔◌, true, false, Option, none, some, [], ◌∷◌, ◌++◌, ◌==◌,
  if◌then◌else◌, ◌&&◌,
}
use telehash_c.Setup.{
  no_opts, override, ok, throws, no_handler, generate_failed, not_listening, abort_failed, up,
  error, Mesh, new_mesh, telehash, emit, transport, use_middleware, use_all, all_settled, settled,
  listen_all, stop_listen, truthy, KeyApi, generated, identity, start, add,
}
use telehash_c.Setup.Starting.{
  start_loads, start_generates, start_throws_iff, telehash_lem, emit_all, on_up_once, went_up,
}
use telehash_c.Setup.Listening.{
  last_connector, use_all_keeps_last, AllListen, listen_then_stop, stop_again, failed_listen,
}

abbrev keys_api : KeyApi
keys_api = record { load = λ secrets keys. "loaded"; generate = some ("sec", "key", "made") }

abbrev broken_api : KeyApi
broken_api = record { load = λ secrets keys. "loaded"; generate = none }

-- Listener 1 opens port 11, listener 2 port 12, and no other can listen.
abbrev ports : ℕ → Option ℕ
ports f = if f == 1 then some 11 else (if f == 2 then some 12 else none)

plain : Mesh
unfolding new_mesh
plain = new_mesh 5 no_opts

-- A mesh with two transports.
ready : Mesh
unfolding plain use_all use_middleware override add
ready = use_all (transport (some 1) (some 21) ∷ transport (some 2) (some 22) ∷ []) plain

stuck : Mesh
unfolding plain use_all use_middleware override add
stuck = use_all (transport (some 1) none ∷ transport (some 3) none ∷ []) plain

ready_starts :
    start keys_api ports none (some "k") true ready
    ≡ ok (record ready {
      hashname = some "made";
      stored = ("sec", "key") ∷ [];
      aborts = some (11 ∷ 12 ∷ []);
      emitted = up ∷ [];
      up_calls = 5 ∷ [];
      on_up = none;
    })
unfolding ready start identity generated listen_all all_settled settled emit
ready_starts = refl

start_loads_case :
    (m' : Mesh) × (start keys_api ports (some "s") (some "k") true ready ≡ ok m')
    × (m'.hashname ≡ some "loaded")
    × (m'.stored ≡ ready.stored)
start_loads_case = start_loads keys_api ports (some "s") (some "k") true ready refl refl

start_generates_case :
    (m' : Mesh) × (start keys_api ports (some "s") (some "") false ready ≡ ok m')
    × (m'.hashname ≡ some "made")
    × (m'.stored ≡ ready.stored ++ ("sec", "key") ∷ [])
start_generates_case =
    start_generates keys_api ports (some "s") (some "") false ready "sec" "key" "made" refl refl

start_throws_iff_case :
    (start broken_api ports none none false ready ≡ throws generate_failed)
    ↔ (((truthy none && truthy none) ≡ false) × (broken_api.generate ≡ none))
start_throws_iff_case = start_throws_iff broken_api ports none none false ready

telehash_lem_case :
    ((telehash (some 5) none ≡ throws no_handler) ↔ (◌≡◌ {A = Option ℕ} (some 5) none))
    × ((f : ℕ)
        → ◌≡◌ {A = Option ℕ} (some 5) (some f)
        → telehash (some 5) none
          ≡ ok (
              new_mesh f (record {
                id = override (some "./mesh.hashname") none;
                chan = override (some []) none;
                transport = override (some []) none;
              })))
telehash_lem_case = telehash_lem (some 5) none

on_up_once_case :
    (emit_all (error ∷ up ∷ up ∷ []) (new_mesh 5 no_opts)).up_calls
    ≡ (if went_up (error ∷ up ∷ up ∷ []) then 5 ∷ [] else [])
on_up_once_case = on_up_once 5 no_opts (error ∷ up ∷ up ∷ [])

use_all_keeps_last_case :
    (use_all (transport none (some 21) ∷ transport none (some 22) ∷ []) plain).connect
    ≡ last_connector plain.connect (transport none (some 21) ∷ transport none (some 22) ∷ [])
use_all_keeps_last_case =
    use_all_keeps_last (transport none (some 21) ∷ transport none (some 22) ∷ []) plain

-- The abort function 11 returns something truthy, 12 throws if it may, and the others return nothing.
abbrev said : Bool → ℕ → Option Bool
said throws_too f = if f == 12 then (if throws_too then none else some false) else some (f == 11)

ready-AllListen : AllListen ports ready.listen (11 ∷ 12 ∷ [])
unfolding ready
ready-AllListen = (refl, (refl, tt))

listen_then_stop_example :
    ((listen_all ports ready).emitted ≡ ready.emitted ++ up ∷ [])
    × ((stop_listen (said false) (listen_all ports ready)).0 ≡ none)
    × ((stop_listen (said false) (listen_all ports ready)).1.aborted
        ≡ ready.aborted ++ 11 ∷ 12 ∷ [])
    × (stop_listen (said false) (stop_listen (said false) (listen_all ports ready)).1
        ≡ stop_listen (said false) (listen_all ports ready))
listen_then_stop_example =
    listen_then_stop ports (said false) ready (11 ∷ 12 ∷ []) ready-AllListen
      ((true, refl), ((false, refl), tt))

stop_again_example :
    ((stop_listen (said true) (listen_all ports ready)).0 ≡ some abort_failed)
    × ((stop_listen (said true) (stop_listen (said true) (listen_all ports ready)).1).0
        ≡ some abort_failed)
    × ((stop_listen (said true) (stop_listen (said true) (listen_all ports ready)).1).1.aborted
        ≡ (ready.aborted ++ 11 ∷ 12 ∷ []) ++ 11 ∷ 12 ∷ [])
stop_again_example =
    stop_again ports (said true) ready (11 ∷ []) 12 [] ready-AllListen ((true, refl), tt) refl

failed_listen_case :
    ((listen_all ports stuck).emitted ≡ stuck.emitted ++ error ∷ [])
    × ((stop_listen (said false) (listen_all ports stuck)).0 ≡ some not_listening)
failed_listen_case =
    failed_listen ports (said false) stuck (unfold stuck all_settled in refl) (unfold stuck in refl)
