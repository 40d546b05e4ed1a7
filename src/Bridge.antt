-- ===== src/Bridge.antt =====
-- js/include/index.js: the functions of the compiled library, wrapped for JavaScript.
pub mod Heap
pub mod Reading
pub mod Strings
pub mod Arguments
pub mod Exports
mod Exporting
mod Tests
use telehash_c.Prelude.{
  ℕ, zero, suc, ◌+◌, ◌≡◌, Bool, true, false, Option, none, some, List, [], ◌∷◌, ◌++◌, length, ◌==◌,
  if◌then◌else◌,
}
use Heap.{Memory, Malloc, write_array, string_bytes, read_buffer}

-- The values of JavaScript, by what `typeof` says, and by what `Wrappers.object` asks; a function and
-- a symbol are known by a number, a text is its UTF-16 code units.
pub data Value : Type 0 where
  number : ℕ → Value
  function : ℕ → Value
  string : List ℕ → Value
  buffer : List ℕ → Value
  null : Value
  object : Value
  undefined : Value
  boolean : Bool → Value
  symbol : Value

-- What the compiled function is applied to. `Wrappers.object` returns an Error object for what it
-- cannot pass, and does not throw it.
pub data Arg : Type 0 where
  num : ℕ → Arg
  error_object : Arg

pub data Result {ℓ} (A : Type ℓ) : Type ℓ where
  ok : A → Result A
  type_error : Result A
  no_slot : Result A

infixl 5 ◌>>=◌
abbrev pub ◌>>=◌ {ℓ κ} : {A : Type ℓ} {B : Type κ} → Result A → (A → Result B) → Result B
ok a >>= f = f a
type_error >>= f = type_error
no_slot >>= f = no_slot

-- `th._malloc` and `th.Runtime.addFunction`, which has a limited number of slots: the functions given
-- so far and the new one give a table index.
pub record Runtime : Type 0 where
  pub malloc : Malloc
  pub add_function : List ℕ → ℕ → Option ℕ

pub record State : Type 0 where
  pub memory : Memory
  pub table : List ℕ

-- `makeVarPointer`: `size` is `_arg.length + mallextra`, and `bytes` is what `write` writes.
unfoldable pub make_var_pointer : Malloc → ℕ → List ℕ → Memory → ℕ × Memory
make_var_pointer malloc size bytes m =
    let p = malloc m.blocks size in
    (p, record { cells = write_array bytes p m.cells; blocks = (p, size) ∷ m.blocks })

abbrev with_pointer : ℕ × Memory → State → Result (Arg × State)
with_pointer (p, m) s = ok (num p, record s { memory = m })

abbrev with_slot : Option ℕ → ℕ → State → Result (Arg × State)
with_slot none f s = no_slot
with_slot (some slot) f s = ok (num slot, record s { table = s.table ++ f ∷ [] })

-- `Wrappers[typeof _arg](_arg)`
unfoldable pub wrap : Runtime → Value → State → Result (Arg × State)
wrap rt (number n) s = ok (num n, s)
wrap rt (function f) s = with_slot (rt.add_function s.table f) f s
wrap rt (string units) s =
    with_pointer (make_var_pointer rt.malloc (length units + 1) (string_bytes units) s.memory) s
wrap rt (buffer bytes) s = with_pointer (make_var_pointer rt.malloc (length bytes) bytes s.memory) s
wrap rt null s = ok (num 0, s)
wrap rt object s = ok (error_object, s)
wrap rt undefined s = ok (num 0, s)
wrap rt (boolean b) s = ok (num (if b then 1 else 0), s)
wrap rt symbol s = type_error

-- The loop over `arguments`.
unfoldable pub wrap_all : Runtime → List Value → State → Result (List Arg × State)
wrap_all rt [] s = ok ([], s)
wrap_all rt (v ∷ vs) s = do (a, s') ← wrap rt v s; (as', s'') ← wrap_all rt vs s'; ok (a ∷ as', s'')

-- `wrapFun(_fun, returntype)`: the compiled function may change the memory.
unfoldable pub wrap_fun :
    {A : Type 0}
    → Runtime
    → (List Arg → State → ℕ × State)
    → (ℕ → Memory → A)
    → List Value
    → State
    → Result (A × State)
wrap_fun rt fun unwrap vs s = do
  (as', s') ← wrap_all rt vs s
  let (r, s'') = fun as' s'
  ok (unwrap r s''.memory, s'')
