-- ===== src/Setup/Starting.antt =====
-- js/core.js: the options of a Mesh, its identity, and the 'up' event.
use telehash_c.Prelude.{
  ℕ, ◌≡◌, refl, sym, ap, ◌∙◌, ◌↔◌, Bool, true, false, ◌&&◌, String, Option, none, some, List, [],
  ◌∷◌, ◌++◌, append-nil, arith, if◌then◌else◌,
}
use telehash_c.Setup.{
  Opts, override, assign, given, no_handler, generate_failed, ok, throws, Emit, up, error, Mesh,
  new_mesh, telehash, once_called, emit, settled, listen_all, truthy, key_text, KeyApi, Identity,
  generated, identity, listed, start,
}

abbrev pub went_up : List Emit → Bool
went_up [] = false
went_up (up ∷ es) = true
went_up (error ∷ es) = went_up es

settled_keeps :
    (r : Option (List ℕ)) (m : Mesh)
    → ((settled r m).hashname ≡ m.hashname) × ((settled r m).stored ≡ m.stored)
unfolding settled emit
settled_keeps none m = (refl, refl)
settled_keeps (some aborts) m = (refl, refl)

-- The state that `start` ends in.
abbrev begun : (ℕ → Option ℕ) → Bool → Identity → Mesh → Mesh
begun outcome listening who m =
    let m' = record m { hashname = some who.hashname; stored = m.stored ++ listed who.to_store } in
    if listening then listen_all outcome m' else emit up m'

begun_keeps :
    (outcome : ℕ → Option ℕ) (listening : Bool) (who : Identity) (m : Mesh)
    → ((begun outcome listening who m).hashname ≡ some who.hashname)
      × ((begun outcome listening who m).stored ≡ m.stored ++ listed who.to_store)
unfolding listen_all emit
begun_keeps outcome true who m = settled_keeps _ _
begun_keeps outcome false who m = (refl, refl)

module _ (api : KeyApi) (outcome : ℕ → Option ℕ) (secrets keys : Option String) (listening : Bool)
    (m : Mesh) where
  -- With both keys in the environment `start` succeeds under the hashname that they load, and stores
  -- nothing.
  pub start_loads :
      truthy secrets ≡ true
      → truthy keys ≡ true
      → (m' : Mesh) × (start api outcome secrets keys listening m ≡ ok m')
        × (m'.hashname ≡ some (api.load (key_text secrets) (key_text keys)))
        × (m'.stored ≡ m.stored)
  unfolding start identity
  start_loads h k =
      let who : Identity = record {
        hashname = api.load (key_text secrets) (key_text keys);
        to_store = none;
      } in
      let (named, stored) = begun_keeps outcome listening who m in
      (begun outcome listening who m, rw (h, k), named, stored ∙ append-nil m.stored)

  -- With a key missing or empty `start` generates an identity and hands its secrets and keys, in this
  -- order, to `_storeKeys`.
  pub start_generates :
      (s k hashname : String)
      → (truthy secrets && truthy keys) ≡ false
      → api.generate ≡ some (s, k, hashname)
      → (m' : Mesh) × (start api outcome secrets keys listening m ≡ ok m')
        × (m'.hashname ≡ some hashname)
        × (m'.stored ≡ m.stored ++ (s, k) ∷ [])
  unfolding start identity generated
  start_generates s k hashname h g =
      let who : Identity = record { hashname = hashname; to_store = some (s, k) } in
      let (named, stored) = begun_keeps outcome listening who m in
      (begun outcome listening who m, rw (h, g), named, stored)

  -- `start` throws exactly when a key is missing or empty and the generation fails.
  pub start_throws_iff :
      (start api outcome secrets keys listening m ≡ throws generate_failed)
      ↔ (((truthy secrets && truthy keys) ≡ false) × (api.generate ≡ none))
  unfolding start identity generated
  start_throws_iff = (λ h. ground arith, λ h. rw (h.0, h.1))

-- An application with no 'up' handler gets an exception; any other gets a Mesh whose options are its
-- own, and the defaults where it gave none.
pub telehash_lem :
    (on_up : Option ℕ) (opts : Option Opts)
    → ((telehash on_up opts ≡ throws no_handler) ↔ (on_up ≡ none))
      × ((f : ℕ)
          → on_up ≡ some f
          → telehash on_up opts
            ≡ ok (
                new_mesh f (record {
                  id = override (some "./mesh.hashname") (given opts).id;
                  chan = override (some []) (given opts).chan;
                  transport = override (some []) (given opts).transport;
                })))
unfolding telehash assign
telehash_lem none opts = ((λ h. refl, λ h. refl), λ f h. cc)
telehash_lem (some on_up) opts = ((λ h. cc, λ h. cc), λ f h. ground arith)

-- The handler given to `Telehash` hears the first 'up' and no other.
abbrev heard : Option ℕ → List Emit → List ℕ
heard f es = if went_up es then once_called f else []

pub emit_all : List Emit → Mesh → Mesh
emit_all [] m = m
emit_all (e ∷ es) m = emit_all es (emit e m)

heard-none : (es : List Emit) → heard none es ≡ []
heard-none es = ground arith

emit_all-heard :
    (es : List Emit) (m : Mesh) → (emit_all es m).up_calls ≡ m.up_calls ++ heard m.on_up es
unfolding emit_all emit
emit_all-heard [] m = sym (append-nil m.up_calls)
emit_all-heard (up ∷ es) m =
    emit_all-heard es _
    ∙ ap (λ (l : List ℕ). (m.up_calls ++ once_called m.on_up) ++ l) (heard-none es)
    ∙ append-nil _
emit_all-heard (error ∷ es) m = emit_all-heard es _

-- However often a Mesh comes up, with errors in between: the handler given to `Telehash` is called
-- once if it comes up at all, and not otherwise.
pub on_up_once :
    (on_up : ℕ) (opts : Opts) (es : List Emit)
    → (emit_all es (new_mesh on_up opts)).up_calls ≡ (if went_up es then on_up ∷ [] else [])
unfolding new_mesh
on_up_once on_up opts es = emit_all-heard es (new_mesh on_up opts)
