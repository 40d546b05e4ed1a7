-- ===== src/Bridge/Arguments.antt =====
-- js/include/index.js: what the compiled function sees of the arguments that `wrapFun` was given.
use telehash_c.Prelude.{
  ℕ, ◌+◌, ◌≡◌, refl, sym, ap, subst, ◌∙◌, ◌⊎◌, inl, inr, List, [], ◌∷◌, ◌++◌, arith, length,
  length-append, ltb, if◌then◌else◌, All, All-append, Bool-cases,
}
use telehash_c.Bridge.Heap.{Memory, Allocates, Apart, read_buffer}
use telehash_c.Bridge.Reading.{IsByte, read_buffer-write_array, read_buffer-Apart}
use telehash_c.Bridge.Strings.{wide, string_fits_iff}
use telehash_c.Bridge.{
  Value, number, function, string, buffer, null, object, undefined, boolean, symbol, Arg, num,
  error_object, ok, Runtime, State, make_var_pointer, wrap, wrap_all,
}

-- A block is live.
abbrev pub Live : ℕ → ℕ → List (ℕ × ℕ) → Type 0
Live p n [] = ⊥
Live p n ((q, m) ∷ blocks) = ((p ≡ q) × (n ≡ m)) ⊎ Live p n blocks

-- The argument is what the value stands for: a number, or a pointer to a live block with its bytes.
pub Passed : Memory → Value → Arg → Type 0
Passed m (number n) a = a ≡ num n
Passed m (function f) a = (slot : ℕ) × (a ≡ num slot)
Passed m (string units) a =
    (p : ℕ) × (a ≡ num p)
    × Live p (length units + 1) m.blocks
    × (read_buffer p (length units + 1) m ≡ units ++ 0 ∷ [])
Passed m (buffer bytes) a =
    (p : ℕ) × (a ≡ num p)
    × Live p (length bytes) m.blocks
    × (read_buffer p (length bytes) m ≡ bytes)
Passed m null a = a ≡ num 0
Passed m object a = a ≡ error_object
Passed m undefined a = a ≡ num 0
Passed m (boolean b) a = a ≡ num (if b then 1 else 0)
Passed m symbol a = ⊥

pub AllPassed : Memory → List Value → List Arg → Type 0
AllPassed m [] [] = Unit
AllPassed m [] (a ∷ as') = ⊥
AllPassed m (v ∷ vs) [] = ⊥
AllPassed m (v ∷ vs) (a ∷ as') = Passed m v a × AllPassed m vs as'

-- Values that can be sent as they are: no function, no symbol, texts in ASCII, buffers of bytes.
abbrev pub Sendable : Value → Type 0
Sendable (number n) = Unit
Sendable (function f) = ⊥
Sendable (string units) = wide units ≡ 0
Sendable (buffer bytes) = All IsByte bytes
Sendable null = Unit
Sendable object = Unit
Sendable undefined = Unit
Sendable (boolean b) = Unit
Sendable symbol = ⊥

-- Live blocks stay, with what they hold.
abbrev Keeps : Memory → Memory → Type 0
Keeps m m' =
    (p n : ℕ) → Live p n m.blocks → Live p n m'.blocks × (read_buffer p n m' ≡ read_buffer p n m)

Passed-Keeps : (m m' : Memory) → Keeps m m' → (v : Value) (a : Arg) → Passed m v a → Passed m' v a
unfolding Passed
Passed-Keeps m m' k (number n) a h = h
Passed-Keeps m m' k (function f) a h = h
Passed-Keeps m m' k (string units) a (p, e, l, r) = (p, e, (k p _ l).0, (k p _ l).1 ∙ r)
Passed-Keeps m m' k (buffer bytes) a (p, e, l, r) = (p, e, (k p _ l).0, (k p _ l).1 ∙ r)
Passed-Keeps m m' k null a h = h
Passed-Keeps m m' k object a h = h
Passed-Keeps m m' k undefined a h = h
Passed-Keeps m m' k (boolean b) a h = h
Passed-Keeps m m' k symbol a h = h

Apart-Live :
    (p n : ℕ) (blocks : List (ℕ × ℕ)) (q k : ℕ)
    → All (Apart p n) blocks
    → Live q k blocks
    → Apart p n (q, k)
Apart-Live p n [] q k h l = absurd l
Apart-Live p n ((r, m) ∷ blocks) q k h (inl e) = rw (e.0, e.1) h.0
Apart-Live p n ((r, m) ∷ blocks) q k h (inr l) = Apart-Live p n blocks q k h.1 l

ascii_bytes : (units : List ℕ) → wide units ≡ 0 → All IsByte units
unfolding wide
ascii_bytes [] h = tt
ascii_bytes (u ∷ us) h = elim (Bool-cases (ltb u 128)) [
  | inl low ↦ (ground arith, ascii_bytes us (ground arith))
  | inr high ↦ absurd (ground arith)
]

module _ (rt : Runtime) (allocates : Allocates rt.malloc) where
  -- A new block of the bytes' own size holds them, and the others keep theirs.
  pointer_holds :
      (size : ℕ) (bytes : List ℕ) (m : Memory)
      → size ≡ length bytes
      → All IsByte bytes
      → let (p, m') = make_var_pointer rt.malloc size bytes m in
        Live p size m'.blocks × (read_buffer p size m' ≡ bytes) × Keeps m m'
  unfolding make_var_pointer
  pointer_holds size bytes m e h =
      let (p, m') = make_var_pointer rt.malloc size bytes m in
      let apart = λ (q n : ℕ) (l : Live q n m.blocks).
        Apart-Live p size m.blocks q n (allocates m.blocks size) l in
      (
        inl (refl, refl),
        ap (λ (n : ℕ). read_buffer p n m') e ∙ read_buffer-write_array bytes p m.cells m'.blocks h,
        λ q n l. (
          inr l,
          read_buffer-Apart bytes p q n m.cells m'.blocks m.blocks
              (subst (λ (k : ℕ). Apart p k (q, n)) e (apart q n l)),
        ),
      )

  abbrev Wraps : Value → State → Type 0
  Wraps v s =
      (a : Arg) × (s' : State) × (wrap rt v s ≡ ok (a, s'))
      × Passed s'.memory v a
      × Keeps s.memory s'.memory

  wrap_lem : (v : Value) (s : State) → Sendable v → Wraps v s
  unfolding wrap Passed
  wrap_lem (number n) s h = (num n, s, refl, refl, λ p n l. (l, refl))
  wrap_lem (function f) s h = absurd h
  wrap_lem (string units) s h =
      let bytes = units ++ 0 ∷ [] in
      let (p, m) = make_var_pointer rt.malloc (length units + 1) bytes s.memory in
      let (live, read, keeps) =
        pointer_holds (length units + 1) bytes s.memory (sym (length-append units (0 ∷ [])))
          (All-append IsByte units (0 ∷ []) (ascii_bytes units h) (omega arith, tt)) in
      (
        num p,
        record s { memory = m },
        rw ((string_fits_iff units).1 h),
        (p, refl, live, read),
        keeps,
      )
  wrap_lem (buffer bytes) s h =
      let (p, m) = make_var_pointer rt.malloc (length bytes) bytes s.memory in
      let (live, read, keeps) = pointer_holds (length bytes) bytes s.memory refl h in
      (num p, record s { memory = m }, refl, (p, refl, live, read), keeps)
  wrap_lem null s h = (num 0, s, refl, refl, λ p n l. (l, refl))
  wrap_lem object s h = (error_object, s, refl, refl, λ p n l. (l, refl))
  wrap_lem undefined s h = (num 0, s, refl, refl, λ p n l. (l, refl))
  wrap_lem (boolean b) s h = (num (if b then 1 else 0), s, refl, refl, λ p n l. (l, refl))
  wrap_lem symbol s h = absurd h

  wrap_all-Keeps :
      (vs : List Value) (s : State)
      → All Sendable vs
      → (as' : List Arg) × (s' : State) × (wrap_all rt vs s ≡ ok (as', s'))
        × AllPassed s'.memory vs as'
        × Keeps s.memory s'.memory
  unfolding wrap_all AllPassed
  wrap_all-Keeps [] s h = ([], s, refl, tt, λ p n l. (l, refl))
  wrap_all-Keeps (v ∷ vs) s h =
      let (a, s', e, passed, keeps) = wrap_lem v s h.0 in
      let (as', s'', e', rest, keeps') = wrap_all-Keeps vs s' h.1 in
      (
        a ∷ as',
        s'',
        rw (e, e'),
        (Passed-Keeps s'.memory s''.memory keeps' v a passed, rest),
        λ p n l. ((keeps' p n (keeps p n l).0).0, (keeps' p n (keeps p n l).0).1 ∙ (keeps p n l).1),
      )

  -- A call with such values reaches the compiled function, and all that was passed is there when it
  -- runs: every number, and for every text and buffer a live block that holds its bytes, a text's with
  -- a null. The blocks of earlier arguments are not touched by later ones.
  pub wrap_all_passes :
      (vs : List Value) (s : State)
      → All Sendable vs
      → (as' : List Arg) × (s' : State) × (wrap_all rt vs s ≡ ok (as', s'))
        × AllPassed s'.memory vs as'
  wrap_all_passes vs s h =
      let (as', s', e, passed, keeps) = wrap_all-Keeps vs s h in (as', s', e, passed)
