-- ===== src/Bridge/Exports.antt =====
-- js/include/index.js: `Unwrappers`, the table of return types, and the loop that puts a wrapper of
-- each compiled function beside it and among the globals.
use Prim.Native.Char.{code}
use telehash_c.Prelude.{
  ℕ, Bool, false, not, ◌&&◌, ◌||◌, Option, none, some, List, [], ◌∷◌, map, String, ◌==◌,
  if◌then◌else◌,
}
use telehash_c.Prelude.Maps.{get, insert}

-- The keys of `Unwrappers` that a return type or a list of types may name.
pub data ReturnType : Type 0 where
  pointer number string json : ReturnType

-- A value that JavaScript gets back: a number, a text, or what `JSON.parse` makes of a text.
pub data Unwrapped (J : Type 0) : Type 0 where
  plain : ℕ → Unwrapped J
  characters : List ℕ → Unwrapped J
  parsed : J → Unwrapped J

unfoldable pub return_types : List (String × ReturnType)
return_types =
    ("_lob_json", json)
    ∷ ("_hashname_short", string)
    ∷ ("_jwt_encode", string)
    ∷ ("_lob_get", string)
    ∷ []

-- `returntypes[key]`, with `returntype || "number"`.
unfoldable pub or_number : Option ReturnType → ReturnType
or_number none = number
or_number (some t) = t

-- `UTF8ToString` of the emscripten runtime reads the text at a pointer; `JSON.parse` may throw.
unfoldable pub unwrap :
    {J : Type 0} → (ℕ → List ℕ) → (List ℕ → Option J) → ReturnType → ℕ → Option (Unwrapped J)
unwrap utf8_to_string parse pointer n = some (plain n)
unwrap utf8_to_string parse number n = some (plain n)
unwrap utf8_to_string parse string n = some (characters (utf8_to_string n))
unwrap utf8_to_string parse json n = elim (parse (utf8_to_string n)) [
  | none ↦ none
  | some j ↦ some (parsed j)
]

-- `key.indexOf("_") == 0`
unfoldable pub is_compiled : String → Bool
is_compiled String.[] = false
is_compiled (String.◌∷◌ c s) = code c == 95

-- `key.substr(1)`
unfoldable pub without_first : String → String
without_first String.[] = String.[]
without_first (String.◌∷◌ c s) = s

unfoldable pub has_underscore : String → Bool
has_underscore String.[] = false
has_underscore (String.◌∷◌ c s) = code c == 95 || has_underscore s

-- `fn.indexOf("_") > 0`: the first one is not at the start.
unfoldable pub is_global : String → Bool
unfolding is_compiled has_underscore
is_global fn = not (is_compiled fn) && has_underscore fn

-- The object `th` and the global object.
pub record Scope (V : Type 0) : Type 0 where
  pub th : List (String × V)
  pub globals : List (String × V)

-- `wrap_fun` is `wrapFun` of what `th[key]` is, by its return type.
module _ {V : Type 0} (wrap_fun : Option V → ReturnType → V) where
  unfoldable pub wrapper : String → Scope V → V
  wrapper key s = wrap_fun (get key s.th) (or_number (get key return_types))

  -- The body of the `forEach`.
  unfoldable pub export_key : String → Scope V → Scope V
  unfolding wrapper without_first
  export_key key s =
      let fn : String = without_first key in
      let w = wrapper key s in
      record {
        th = insert fn w s.th;
        globals = if is_global fn then insert fn w s.globals else s.globals;
      }

  -- The keys are those that `th` has before the loop.
  unfoldable pub export_keys : List String → Scope V → Scope V
  export_keys [] s = s
  export_keys (key ∷ keys) s = export_keys keys (if is_compiled key then export_key key s else s)

  unfoldable pub export_all : Scope V → Scope V
  export_all s = export_keys (map (λ e. e.0) s.th) s
