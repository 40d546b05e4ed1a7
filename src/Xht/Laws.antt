-- ===== src/Xht/Laws.antt =====
-- src/lib/xht.c: the table as a function from keys to values.
use telehash_c.Prelude.{
  ℕ, ◌%◌, ◌≡◌, refl, sym, ap, subst, ◌∙◌, Bool, true, false, List, [], ◌∷◌, arith, ◌==◌,
  if◌then◌else◌, Bool-cases, inl, inr,
}
use telehash_c.Xht.{
  Key, hash, same, Bucket, has_key, empty_node, write, Table, new, set_with, set, store_copy, get,
}
use telehash_c.Xht.Keys.{eq_of_same, value, val_of-find, Unique}
use telehash_c.Xht.Buckets.{written, write-Written}

-- In each bucket all keys are different.
abbrev pub Valid : Table → Type 0
Valid t = (i : ℕ) → Unique (t.zen i)

-- What `xht_get` looks up.
pub get_lem : (k : Key) (t : Table) → get k t ≡ value k (t.zen (hash k % t.prime))
unfolding get
get_lem k t = val_of-find k (t.zen (hash k % t.prime))

level : (i j : ℕ) → i ≡ j → (i == j) ≡ true
level i j e = ground arith

abbrev changed : Bool → Key → ℕ → Table → Bucket
changed flag k v t = (write k (written k v flag) (t.zen (hash k % t.prime))).0

pub zen-set_with :
    (flag : Bool) (k : Key) (v : ℕ) (t : Table) (i : ℕ)
    → (set_with flag k v t).zen i ≡ (if i == hash k % t.prime then changed flag k v t else t.zen i)
unfolding set_with
zen-set_with flag k v t i = refl

set_with-Valid : (flag : Bool) (k : Key) (v : ℕ) (t : Table) → Valid t → Valid (set_with flag k v t)
set_with-Valid flag k v t valid i = elim (Bool-cases (i == hash k % t.prime)) [
  | inl here ↦
      subst Unique (sym (zen-set_with flag k v t i ∙ rw here refl))
        (write-Written k v flag (t.zen (hash k % t.prime)) (valid (hash k % t.prime))).0
  | inr there ↦ subst Unique (sym (zen-set_with flag k v t i ∙ rw there refl)) (valid i)
]

get_after :
    (flag : Bool) (k j : Key) (v : ℕ) (t : Table)
    → get j (set_with flag k v t)
      ≡ value j (
          if hash j % t.prime == hash k % t.prime
          then changed flag k v t
          else t.zen (hash j % t.prime))
unfolding set_with
get_after flag k j v t = get_lem j (set_with flag k v t)

pub elsewhere :
    (k j : Key) (t : Table) → (hash j % t.prime == hash k % t.prime) ≡ false → same j k ≡ false
elsewhere k j t there = elim (Bool-cases (same j k)) [
  | inl it ↦
      let e = ap (λ l. hash l % t.prime) (eq_of_same j k it) in
      it ∙ sym (level (hash j % t.prime) (hash k % t.prime) e) ∙ there
  | inr other ↦ other
]

-- `xht_get` after `_xht_set`: the new value at the key, and the old ones elsewhere.
get-set_with :
    (flag : Bool) (k j : Key) (v : ℕ) (t : Table)
    → Valid t
    → get j (set_with flag k v t) ≡ (if same j k then v else get j t)
get-set_with flag k j v t valid =
    let at_j = hash j % t.prime in
    let at_k = hash k % t.prime in
    let wrote = (write-Written k v flag (t.zen at_k) (valid at_k)).1 j in
    let looked = get_after flag k j v t in
    elim (Bool-cases (at_j == at_k)) [
      | inl here ↦
          let e : at_j ≡ at_k = ground arith in
          let old = ap (λ i. value j (t.zen i)) (sym e) ∙ sym (get_lem j t) in
          looked ∙ rw here refl ∙ wrote ∙ ap (λ x. if same j k then v else x) old
      | inr there ↦
          looked ∙ rw there refl ∙ sym (get_lem j t) ∙ sym (rw (elsewhere k j t there) refl)
    ]

-- What is done with a table: `xht_set`, and `xht_store` with a copy of the value at an address.
pub data Call : Type 0 where
  sets stores : Key → ℕ → Call

unfoldable pub step : Call → Table → Table
unfolding set store_copy
step (sets k v) t = set k v t
step (stores k copy) t = store_copy k copy t

unfoldable pub run : List Call → Table → Table
unfolding step
run [] t = t
run (c ∷ cs) t = run cs (step c t)

-- The same with a function from keys to values; an empty key is not stored.
unfoldable pub update : Key → ℕ → (Key → ℕ) → Key → ℕ
update k v f j = if same j k then v else f j

unfoldable pub plain_step : Call → (Key → ℕ) → Key → ℕ
unfolding update
plain_step (sets k v) f j = update k v f j
plain_step (stores [] copy) f j = f j
plain_step (stores (c ∷ k) copy) f j = update (c ∷ k) copy f j

unfoldable pub plain_run : List Call → (Key → ℕ) → Key → ℕ
unfolding plain_step
plain_run [] f j = f j
plain_run (c ∷ cs) f j = plain_run cs (λ i. plain_step c f i) j

abbrev Shows : (Key → ℕ) → Table → Type 0
Shows f t = Valid t × ((j : Key) → get j t ≡ f j)

set_with-Shows :
    (flag : Bool) (k : Key) (v : ℕ) (f : Key → ℕ) (t : Table)
    → Shows f t
    → Shows (update k v f) (set_with flag k v t)
unfolding update
set_with-Shows flag k v f t (valid, shows) = (
  set_with-Valid flag k v t valid,
  λ j. get-set_with flag k j v t valid ∙ ap (λ x. if same j k then v else x) (shows j),
)

step-Shows :
    (c : Call) (f : Key → ℕ) (t : Table) → Shows f t → Shows (λ i. plain_step c f i) (step c t)
unfolding step plain_step set store_copy
step-Shows (sets k v) f t shows = set_with-Shows false k v f t shows
step-Shows (stores [] copy) f t shows = shows
step-Shows (stores (c ∷ k) copy) f t shows = set_with-Shows true (c ∷ k) copy f t shows

pub run-Shows :
    (cs : List Call) (f : Key → ℕ) (t : Table)
    → Shows f t
    → Shows (λ j. plain_run cs f j) (run cs t)
unfolding run plain_run
run-Shows [] f t shows = shows
run-Shows (c ∷ cs) f t shows =
    run-Shows cs (λ i. plain_step c f i) (step c t) (step-Shows c f t shows)

value_empty : (k : Key) → value k (empty_node ∷ []) ≡ 0
unfolding value empty_node has_key
value_empty k = refl

pub new-Shows : (prime : ℕ) → Shows (λ j. 0) (new prime)
unfolding new empty_node
new-Shows prime = (λ i. (tt, tt), λ j. get_lem j (new prime) ∙ value_empty j)

-- After any row of `xht_set` and `xht_store` on a new table, `xht_get` gives
-- for each key the value of the last call for that key, or NULL: what a function from keys to values
-- gives, in which each call changes one key.
pub get-run :
    (prime : ℕ) (cs : List Call) (k : Key) → get k (run cs (new prime)) ≡ plain_run cs (λ j. 0) k
get-run prime cs k = (run-Shows cs (λ j. 0) (new prime) (new-Shows prime)).1 k
