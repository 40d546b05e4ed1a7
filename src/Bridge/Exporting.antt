-- ===== src/Bridge/Exporting.antt =====
-- js/include/index.js: what the loop over the compiled functions leaves in `th` and the global object.
use Prim.Native.Char.{code}
use text.Mathlib.Text.{◌==◌ as str_eq}
use text.Mathlib.TextEquality.{eq_iff, Char-path}
use telehash_c.Prelude.{
  ◌≡◌, ◌≢◌, refl, sym, ap, ◌∙◌, true, false, ◌&&◌, Option, some, List, [], ◌∷◌, map, String, arith,
  ==_iff, if◌then◌else◌, inl, inr, Bool-cases,
}
use telehash_c.Prelude.Maps.{get, insert, get-insert, has, contains}
use telehash_c.Bridge.Exports.{
  ReturnType, or_number, return_types, is_compiled, without_first, is_global, Scope, wrapper,
  export_key, export_keys, export_all,
}

-- The key under which the compiled function of a name stands.
abbrev pub compiled : String → String
compiled fn = String.◌∷◌ "_" fn

is_compiled-compiled : (fn : String) → is_compiled (compiled fn) ≡ true
unfolding is_compiled
is_compiled-compiled fn = refl

str_eq_not : (a b : String) → a ≢ b → str_eq a b ≡ false
str_eq_not a b h = ground (arith, eq_iff a b)

true≢false : true ≡ false → ⊥
true≢false e = cc

-- A compiled key is a name's if the name is the rest of the key.
compiled_key : (key : String) → is_compiled key ≡ true → key ≡ compiled (without_first key)
unfolding is_compiled without_first
compiled_key String.[] h = cc
compiled_key (String.◌∷◌ c s) h =
    ap (λ d. String.◌∷◌ d s) (Char-path c "_" ((==_iff (code c) 95).0 h))

-- The name inserted is the one asked for exactly when the key is the compiled function's.
same_test :
    (key fn : String)
    → is_compiled key ≡ true
    → str_eq (without_first key) fn ≡ str_eq key (compiled fn)
unfolding without_first
same_test key fn is_key = elim (Bool-cases (str_eq (without_first key) fn)) [
  | inl same ↦
      let whole = compiled_key key is_key ∙ ap compiled ((eq_iff (without_first key) fn).0 same) in
      same ∙ sym ((eq_iff key (compiled fn)).1 whole)
  | inr other ↦
      other
      ∙ sym (
          str_eq_not key (compiled fn) (λ e.
            true≢false (sym ((eq_iff (without_first key) fn).1 (ap without_first e)) ∙ other)))
]

name_of_key : (key fn : String) → str_eq key (compiled fn) ≡ true → without_first key ≡ fn
unfolding without_first
name_of_key key fn at = ap without_first ((eq_iff key (compiled fn)).0 at)

not_first :
    (key : String) (keys : List String) (k : String)
    → contains (key ∷ keys) k ≡ false
    → str_eq key k ≡ false
unfolding contains
not_first key keys k h = ground arith

not_later :
    (key : String) (keys : List String) (k : String)
    → contains (key ∷ keys) k ≡ false
    → contains keys k ≡ false
unfolding contains
not_later key keys k h = ground arith

other_key : (key fn : String) → is_compiled key ≡ false → str_eq key (compiled fn) ≡ false
other_key key fn other =
    str_eq_not key (compiled fn)
      (λ e. true≢false (sym (is_compiled-compiled fn) ∙ sym (ap is_compiled e) ∙ other))

module _ {V : Type 0} where
  contains-keys : (k : String) (m : List (String × V)) → contains (map (λ e. e.0) m) k ≡ has k m
  unfolding contains get
  contains-keys k [] = refl
  contains-keys k ((j, v) ∷ m) = ground (arith, contains-keys k m)

  module _ (wrap_fun : Option V → ReturnType → V) where
    -- A step leaves the compiled functions alone.
    wrapper-export_key :
        (fn key : String) (s : Scope V)
        → is_compiled key ≡ true
        → str_eq key (compiled (compiled fn)) ≡ false
        → wrapper wrap_fun (compiled fn) (export_key wrap_fun key s)
          ≡ wrapper wrap_fun (compiled fn) s
    unfolding wrapper export_key
    wrapper-export_key fn key s is_key single =
        let differs : without_first key ≢ compiled fn = λ e. true≢false (
          sym ((eq_iff key (compiled (compiled fn))).1 (compiled_key key is_key ∙ ap compiled e))
          ∙ single) in
        ap (λ o. wrap_fun o (or_number (get (compiled fn) return_types)))
          (get-insert (without_first key) (compiled fn) (wrapper wrap_fun key s) s.th
            ∙ rw (str_eq_not _ _ differs))

    -- What a name holds after a step, when the step inserts in `m`.
    get_inserted :
        (fn key : String) (s : Scope V) (m : List (String × V))
        → is_compiled key ≡ true
        → get fn (insert (without_first key) (wrapper wrap_fun key s) m)
          ≡ (if str_eq key (compiled fn) then some (wrapper wrap_fun (compiled fn) s) else get fn m)
    get_inserted fn key s m is_key =
        get-insert (without_first key) fn (wrapper wrap_fun key s) m
        ∙ ap (λ b. if b then some (wrapper wrap_fun key s) else get fn m) (same_test key fn is_key)
        ∙ ground (arith, eq_iff key (compiled fn))

    get-export_key :
        (fn key : String) (s : Scope V)
        → is_compiled key ≡ true
        → get fn (export_key wrap_fun key s).th ≡ (
            if str_eq key (compiled fn)
            then some (wrapper wrap_fun (compiled fn) s)
            else get fn s.th)
    unfolding export_key
    get-export_key fn key s is_key = get_inserted fn key s s.th is_key

    get_global-export_key :
        (fn key : String) (s : Scope V)
        → is_compiled key ≡ true
        → get fn (export_key wrap_fun key s).globals ≡ (
            if str_eq key (compiled fn) && is_global fn
            then some (wrapper wrap_fun (compiled fn) s)
            else get fn s.globals)
    unfolding export_key
    get_global-export_key fn key s is_key =
        let inserted = get_inserted fn key s s.globals is_key in
        let same = name_of_key key fn in
        elim (Bool-cases (is_global (without_first key))) [
          | inl shown ↦ rw shown (elim (Bool-cases (str_eq key (compiled fn))) [
            | inl at ↦ let g = sym (ap is_global (same at)) ∙ shown in rw (inserted, at, g)
            | inr off ↦ rw (inserted, off)
          ])
          | inr hidden ↦ rw hidden (elim (Bool-cases (str_eq key (compiled fn))) [
            | inl at ↦ let g = sym (ap is_global (same at)) ∙ hidden in rw (at, g)
            | inr off ↦ rw off
          ])
        ]

    -- What the names hold after the loop over some keys.
    get-export_keys :
        (keys : List String) (fn : String) (s : Scope V)
        → contains keys (compiled (compiled fn)) ≡ false
        → get fn (export_keys wrap_fun keys s).th ≡ (
            if contains keys (compiled fn)
            then some (wrapper wrap_fun (compiled fn) s)
            else get fn s.th)
    unfolding export_keys contains
    get-export_keys [] fn s single = refl
    get-export_keys (key ∷ keys) fn s single = elim (Bool-cases (is_compiled key)) [
      | inl is_key ↦
          let next = export_key wrap_fun key s in
          rw (is_key, export_keys)
            (get-export_keys keys fn next (not_later key keys (compiled (compiled fn)) single)
              ∙ ap (λ v. if contains keys (compiled fn) then some v else get fn next.th)
                  (wrapper-export_key fn key s is_key
                    (not_first key keys (compiled (compiled fn)) single))
              ∙ ap
                  (λ o.
                    if contains keys (compiled fn)
                    then some (wrapper wrap_fun (compiled fn) s)
                    else o)
                  (get-export_key fn key s is_key)
              ∙ ground arith)
      | inr other ↦
          rw (other, other_key key fn other, export_keys)
            (get-export_keys keys fn s (not_later key keys (compiled (compiled fn)) single))
    ]

    get_global-export_keys :
        (keys : List String) (fn : String) (s : Scope V)
        → contains keys (compiled (compiled fn)) ≡ false
        → get fn (export_keys wrap_fun keys s).globals ≡ (
            if contains keys (compiled fn) && is_global fn
            then some (wrapper wrap_fun (compiled fn) s)
            else get fn s.globals)
    unfolding export_keys contains
    get_global-export_keys [] fn s single = refl
    get_global-export_keys (key ∷ keys) fn s single = elim (Bool-cases (is_compiled key)) [
      | inl is_key ↦
          let next = export_key wrap_fun key s in
          let test = contains keys (compiled fn) && is_global fn in
          rw (is_key, export_keys)
            (get_global-export_keys keys fn next
                (not_later key keys (compiled (compiled fn)) single)
              ∙ ap (λ v. if test then some v else get fn next.globals)
                  (wrapper-export_key fn key s is_key
                    (not_first key keys (compiled (compiled fn)) single))
              ∙ ap (λ o. if test then some (wrapper wrap_fun (compiled fn) s) else o)
                  (get_global-export_key fn key s is_key)
              ∙ ground arith)
      | inr other ↦
          rw (other, other_key key fn other, export_keys)
            (get_global-export_keys keys fn s (not_later key keys (compiled (compiled fn)) single))
    ]

    -- When the name with two underscores in front is no key of th, then after the loop the name holds
    -- the wrapper of the function compiled under it, by its return type, if there is one, and otherwise
    -- what it held; the same in the global object, if the name has an underscore that is not its first
    -- character. The other keys may have any number of underscores.
    pub get-export_all :
        (fn : String) (s : Scope V)
        → has (compiled (compiled fn)) s.th ≡ false
        → (get fn (export_all wrap_fun s).th ≡ (
            if has (compiled fn) s.th
            then some
                (wrap_fun (get (compiled fn) s.th) (or_number (get (compiled fn) return_types)))
            else get fn s.th))
          × (get fn (export_all wrap_fun s).globals ≡ (
              if has (compiled fn) s.th && is_global fn
              then some
                  (wrap_fun (get (compiled fn) s.th) (or_number (get (compiled fn) return_types)))
              else get fn s.globals))
    unfolding export_all wrapper
    get-export_all fn s single =
        let present = contains-keys (compiled fn) s.th in
        (
          rw (← present) (
              get-export_keys (map (λ e. e.0) s.th) fn s
                (contains-keys (compiled (compiled fn)) s.th ∙ single)),
          rw (← present) (
              get_global-export_keys (map (λ e. e.0) s.th) fn s
                (contains-keys (compiled (compiled fn)) s.th ∙ single)),
        )
