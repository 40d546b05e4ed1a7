-- ===== src/Bridge/Tests.antt =====
-- Calls through the wrapper, with an allocator that never frees.
use telehash_c.Prelude.{
  ℕ, ◌+◌, ◌*◌, ◌≤◌, ◌≡◌, refl, ◌↔◌, inr, Option, none, some, List, [], ◌∷◌, ◌++◌, arith, length,
  leb, if◌then◌else◌, All,
}
use telehash_c.Bridge.Heap.{
  Allocates, Apart, poke, write_array, read_buffer, utf8, string_bytes, int8, uint8,
}
use telehash_c.Bridge.Strings.{wide, string_fits_iff}
use telehash_c.Bridge.{
  Value, number, string, buffer, null, Arg, ok, Runtime, State, make_var_pointer, wrap, wrap_all,
  wrap_fun,
}
use telehash_c.Bridge.Arguments.{AllPassed, wrap_all_passes}
use telehash_c.Bridge.Exports.{
  ReturnType, json, parsed, unwrap, return_types, or_number, is_compiled, without_first, is_global,
  Scope, wrapper, export_key, export_keys, export_all,
}
use telehash_c.Bridge.Exporting.{get-export_all}
use telehash_c.Prelude.Maps.{get, insert}

-- The end of the last block.
top : List (ℕ × ℕ) → ℕ
top [] = 8
top ((q, m) ∷ blocks) = let rest = top blocks in if leb rest (q + m) then q + m else rest

top-Apart : (n p : ℕ) (blocks : List (ℕ × ℕ)) → top blocks ≤ p → All (Apart p n) blocks
unfolding top
top-Apart n p [] h = tt
top-Apart n p ((q, m) ∷ blocks) h = (inr (ground arith), top-Apart n p blocks (ground arith))

abbrev bump : Runtime
bump = record { malloc = λ blocks n. top blocks; add_function = λ table f. some (length table) }

bump-Allocates : Allocates bump.malloc
bump-Allocates blocks n = top-Apart n (top blocks) blocks (omega arith)

abbrev blank : State
blank = record { memory = record { cells = λ q. 0; blocks = [] }; table = [] }

-- "hi", the bytes 1, 200, a number and null.
abbrev four : List Value
four = string (104 ∷ 105 ∷ []) ∷ buffer (1 ∷ 200 ∷ []) ∷ number 5 ∷ null ∷ []

call_reads :
    wrap_fun {A = List ℕ × List ℕ} bump
      (λ as' s. (8, s))
      (λ r m. (read_buffer r 3 m, read_buffer 11 2 m))
      four
      blank
    ≡ ok (
      (104 ∷ 105 ∷ 0 ∷ [], 1 ∷ 200 ∷ []),
      record {
        memory = record {
          cells = write_array (1 ∷ 200 ∷ []) 11 (write_array (104 ∷ 105 ∷ 0 ∷ []) 8 (λ q. 0));
          blocks = (11, 2) ∷ (8, 3) ∷ [];
        };
        table = [];
      },
    )
unfolding wrap_fun wrap_all wrap make_var_pointer top write_array poke read_buffer string_bytes utf8
    int8 uint8
call_reads = refl

abbrev e_acute : List ℕ
e_acute = 233 ∷ []

-- "é" is one unit and two bytes; U+1F600 is two units and four bytes.
encodes :
    (utf8 (233 ∷ []) ≡ 195 ∷ 169 ∷ []) × (utf8 (55357 ∷ 56832 ∷ []) ≡ 240 ∷ 159 ∷ 152 ∷ 128 ∷ [])
unfolding utf8
encodes = (refl, refl)

string_fits_iff_example :
    ((length (string_bytes e_acute) ≤ length e_acute + 1) ↔ (wide e_acute ≡ 0))
    × (wide e_acute ≡ 0 → string_bytes e_acute ≡ e_acute ++ 0 ∷ [])
string_fits_iff_example = string_fits_iff e_acute

wrap_all_passes_example :
    (as' : List Arg) × (s' : State) × (wrap_all bump four blank ≡ ok (as', s'))
    × AllPassed s'.memory four as'
unfolding wide
wrap_all_passes_example =
    wrap_all_passes bump bump-Allocates four blank (refl, ((omega arith), (tt, (tt, tt))))

-- What `th` holds before the loop: three compiled functions and one name of the runtime's own.
abbrev exports_before : Scope ℕ
exports_before = record {
  th = ("_lob_json", 1) ∷ ("_free", 2) ∷ ("Runtime", 3) ∷ ("___errno_location", 4) ∷ [];
  globals = ("free", 9) ∷ [];
}

-- A wrapper is known by its function and its return type.
abbrev numbered : Option ℕ → ReturnType → ℕ
numbered none t = 0
numbered (some n) json = 10 * n
numbered (some n) t = 100 * n

exports_run : export_all numbered exports_before ≡ record {
  th =
      ("_lob_json", 1)
      ∷ ("_free", 2)
      ∷ ("Runtime", 3)
      ∷ ("___errno_location", 4)
      ∷ ("lob_json", 10)
      ∷ ("free", 200)
      ∷ ("__errno_location", 400)
      ∷ [];
  globals = ("free", 9) ∷ ("lob_json", 10) ∷ [];
}
unfolding export_all export_keys export_key is_compiled is_global wrapper get insert return_types
    or_number
exports_run = refl

unwrapped : unwrap (λ p. p ∷ []) (λ (s : List ℕ). some (length s)) json 7 ≡ some (parsed 1)
unfolding unwrap
unwrapped = refl

get-export_all_example :
    (get "lob_json" (export_all numbered exports_before).th ≡ some 10)
    × (get "lob_json" (export_all numbered exports_before).globals ≡ some 10)
unfolding get is_global return_types or_number without_first
get-export_all_example = get-export_all numbered "lob_json" exports_before refl
