-- ===== src/Setup.antt =====
-- js/core.js: how class Mesh is put together and started: `Telehash`, `use`, `start`, `listen` and
-- `stopListen`.
pub mod Starting
pub mod Listening
mod Tests
use text.Mathlib.Text.{◌==◌ as str_eq}
use telehash_c.Prelude.{
  ℕ, zero, suc, Bool, true, false, not, ◌&&◌, String, Option, none, some, List, [], ◌∷◌, ◌++◌, ◌==◌,
  if◌then◌else◌, is_some,
}

-- The options of `Telehash`; a field that is `none` is not a property of the object.
pub record Opts : Type 0 where
  pub id : Option String
  pub chan : Option (List ℕ)
  pub transport : Option (List ℕ)

abbrev pub default_opts : Opts
default_opts = record { id = some "./mesh.hashname"; chan = some []; transport = some [] }

-- A property of the later object, or that of the earlier one.
unfoldable pub override {ℓ} : {A : Type ℓ} → Option A → Option A → Option A
override old none = old
override old (some new) = some new

-- `Object.assign({}, defaults, opts)`
unfoldable pub assign : Opts → Opts → Opts
assign defaults opts = record {
  id = override defaults.id opts.id;
  chan = override defaults.chan opts.chan;
  transport = override defaults.transport opts.transport;
}

abbrev pub no_opts : Opts
no_opts = record { id = none; chan = none; transport = none }

abbrev given : Option Opts → Opts
given none = no_opts
given (some opts) = opts

-- A function of the application or of a middleware stands for itself as a number.
pub data Fault : Type 0 where
  no_handler : Fault
  generate_failed : Fault
  not_listening : Fault
  abort_failed : Fault

pub data Result {ℓ} (A : Type ℓ) : Type ℓ where
  ok : A → Result A
  throws : Fault → Result A

infixl 5 ◌>>=◌
abbrev pub ◌>>=◌ {ℓ κ} : {A : Type ℓ} {B : Type κ} → Result A → (A → Result B) → Result B
ok a >>= f = f a
throws e >>= f = throws e

-- The event listeners of a Mesh, and what it has emitted.
pub data Emit : Type 0 where
  up : Emit
  error : Emit

-- The functions behind `_getKeys` and `_storeKeys`.
pub data Keys : Type 0 where
  environment : Keys
  custom : ℕ → ℕ → Keys

pub record Mesh : Type 0 where
  pub opts : Opts
  pub on_up : Option ℕ
  -- `_listen`, `_connect` and `_aborts`, which is undefined at first.
  pub listen : List ℕ
  pub connect : Option ℕ
  pub aborts : Option (List ℕ)
  pub keys : Keys
  pub open_handlers : List ℕ
  pub random : Option ℕ
  pub hashname : Option String
  pub stored : List (String × String)
  pub emitted : List Emit
  -- The calls of `on_up`, and of functions that were handed out by listeners.
  pub up_calls : List ℕ
  pub aborted : List ℕ

unfoldable pub new_mesh : ℕ → Opts → Mesh
new_mesh on_up opts = record {
  opts = opts;
  on_up = some on_up;
  listen = [];
  connect = none;
  aborts = none;
  keys = environment;
  open_handlers = [];
  random = none;
  hashname = none;
  stored = [];
  emitted = [];
  up_calls = [];
  aborted = [];
}

-- `module.exports`
unfoldable pub telehash : Option ℕ → Option Opts → Result Mesh
telehash none opts = throws no_handler
telehash (some on_up) opts = ok (new_mesh on_up (assign default_opts (given opts)))

-- `emit`: the listener that `once` set runs on the first 'up' only.
abbrev once_called : Option ℕ → List ℕ
once_called none = []
once_called (some f) = f ∷ []

unfoldable pub emit : Emit → Mesh → Mesh
emit up m = record m {
  emitted = m.emitted ++ up ∷ [];
  up_calls = m.up_calls ++ once_called m.on_up;
  on_up = none;
}
emit error m = record m { emitted = m.emitted ++ error ∷ [] }

-- What `middleware(this, th)` returns: the properties that `use` reads.
pub data Middleware : Type 0 where
  transport : Option ℕ → Option ℕ → Middleware
  channel : ℕ → Middleware
  keystore : ℕ → ℕ → Middleware
  rng : ℕ → Middleware
  other : Middleware

unfoldable pub add : ℕ → List ℕ → List ℕ
add f [] = f ∷ []
add f (g ∷ gs) = if g == f then g ∷ gs else g ∷ add f gs

abbrev add_listener : Option ℕ → List ℕ → List ℕ
add_listener none fs = fs
add_listener (some f) fs = add f fs

-- `use`: `_connect` has one key, the type "transport", so a later transport replaces an earlier one.
unfoldable pub use_middleware : Middleware → Mesh → Mesh
use_middleware (transport listener connector) m = record m {
  listen = add_listener listener m.listen;
  connect = override m.connect connector;
}
use_middleware (channel handler) m = record m { open_handlers = m.open_handlers ++ handler ∷ [] }
use_middleware (keystore get store) m = record m { keys = custom get store }
use_middleware (rng random_byte) m = record m { random = some random_byte }
use_middleware other m = m

unfoldable pub use_all : List Middleware → Mesh → Mesh
use_all [] m = m
use_all (mid ∷ mids) m = use_all mids (use_middleware mid m)

-- `Promise.all` of what the listeners return: `none` is a promise that is rejected.
unfoldable pub all_settled : (ℕ → Option ℕ) → List ℕ → Option (List ℕ)
all_settled outcome [] = some []
all_settled outcome (f ∷ fs) = elim (outcome f) [
  | none ↦ none
  | some abort ↦ elim (all_settled outcome fs) [ none ↦ none | some aborts ↦ some (abort ∷ aborts) ]
]

unfoldable pub settled : Option (List ℕ) → Mesh → Mesh
settled none m = emit error m
settled (some aborts) m = emit up (record m { aborts = some aborts })

unfoldable pub listen_all : (ℕ → Option ℕ) → Mesh → Mesh
listen_all outcome m = settled (all_settled outcome m.listen) m

abbrev pub keep_if : Bool → ℕ → Option (List ℕ) → Option (List ℕ)
keep_if keep abort none = none
keep_if keep abort (some kept) = some (if keep then abort ∷ kept else kept)

-- `filter((abort) => abort() && false)`: each abort function is called in turn, and is kept if it
-- returns a truthy value and false is one. `answer` is what a call returns, `none` if it throws, which
-- ends the loop. The functions called, and those kept, if none threw.
unfoldable pub filter_aborts : (ℕ → Option Bool) → List ℕ → List ℕ × Option (List ℕ)
filter_aborts answer [] = ([], some [])
filter_aborts answer (abort ∷ aborts) =
    let (called, kept) = filter_aborts answer aborts in
    elim (answer abort) [
      | none ↦ (abort ∷ [], none)
      | some said ↦ (abort ∷ called, keep_if (said && false) abort kept)
    ]

-- `stopListen`: `filter` on undefined throws, and `_aborts` is written after the loop.
unfoldable pub stop_aborts : (ℕ → Option Bool) → Option (List ℕ) → Mesh → Option Fault × Mesh
unfolding filter_aborts
stop_aborts answer none m = (some not_listening, m)
stop_aborts answer (some aborts) m =
    let (called, kept) = filter_aborts answer aborts in
    let m' = record m { aborted = m.aborted ++ called } in
    elim kept [
      | none ↦ (some abort_failed, m')
      | some rest ↦ (none, record m' { aborts = some rest })
    ]

unfoldable pub stop_listen : (ℕ → Option Bool) → Mesh → Option Fault × Mesh
stop_listen answer m = stop_aborts answer m.aborts m

-- JavaScript's truth of a text that may be missing.
abbrev pub truthy : Option String → Bool
truthy none = false
truthy (some text) = not (str_eq text "")

abbrev pub key_text : Option String → String
key_text none = ""
key_text (some t) = t

-- The C library's part of `start`: the hashname after `mesh_load`, and the secrets, the keys and the
-- hashname after `mesh_generate`, if it does not fail.
pub record KeyApi : Type 0 where
  pub load : String → String → String
  pub generate : Option (String × String × String)

pub record Identity : Type 0 where
  pub hashname : String
  -- What `_storeKeys` is called with, if it is called.
  pub to_store : Option (String × String)

unfoldable pub generated : Option (String × String × String) → Result Identity
generated none = throws generate_failed
generated (some (secrets, keys, hashname)) =
    ok (record { hashname = hashname; to_store = some (secrets, keys) })

unfoldable pub identity : KeyApi → Option String → Option String → Result Identity
identity api secrets keys =
    if truthy secrets && truthy keys
    then ok (record { hashname = api.load (key_text secrets) (key_text keys); to_store = none })
    else generated api.generate

abbrev listed : {A : Type 0} → Option A → List A
listed none = []
listed (some a) = a ∷ []

-- The callback that `start` gives to `_getKeys`.
unfoldable pub start :
    KeyApi → (ℕ → Option ℕ) → Option String → Option String → Bool → Mesh → Result Mesh
start api outcome secrets keys listening m = do
  who ← identity api secrets keys
  let m' = record m { hashname = some who.hashname; stored = m.stored ++ listed who.to_store }
  ok (if listening then listen_all outcome m' else emit up m')
