-- ===== src/Xht/Walking.antt =====
-- src/lib/xht.c: what `xht_walk` passes on.
use native.Mathlib.Nat.{mod-lt}
use telehash_c.Prelude.{
  ℕ, zero, suc, ◌+◌, ◌%◌, ◌<◌, ◌≡◌, refl, sym, ap, ap₂, subst, ◌∙◌, Bool, true, false, ◌&&◌, Option,
  none, some, List, [], ◌∷◌, ◌++◌, arith, ◌==◌, ltb, leb, if◌then◌else◌, Bool-cases, Option-cases,
  inl, inr,
}
use telehash_c.Xht.{
  Key, hash, same, Bucket, has_key, empty_node, write, write_found, write_other, add_second,
  free_first, Table, new, set_with, set, store_copy, get, walked, walk_bucket, walk_from, walk,
}
use telehash_c.Xht.Keys.{present, value, find-cases, absent, at_key, LacksKey, Unique}
use telehash_c.Xht.Buckets.{written, lacks-write_key, lacks-write_free}
use telehash_c.Xht.Laws.{
  Valid, get_lem, elsewhere, zen-set_with, Call, sets, stores, step, run, plain_run, run-Shows,
  new-Shows,
}

-- The values that a walk passes on with a key.
abbrev pub values_of : Key → List (Key × ℕ) → List ℕ
values_of k [] = []
values_of k ((j, v) ∷ xs) = let rest = values_of k xs in if same k j then v ∷ rest else rest

abbrev pub unless_null : ℕ → List ℕ
unless_null v = if v == 0 then [] else v ∷ []

values_of-append :
    (k : Key) (xs ys : List (Key × ℕ)) → values_of k (xs ++ ys) ≡ values_of k xs ++ values_of k ys
values_of-append k [] ys = refl
values_of-append k ((j, v) ∷ xs) ys = elim (Bool-cases (same k j)) [
  | inl it ↦ rw it (ap (λ l. v ∷ l) (values_of-append k xs ys))
  | inr other ↦ rw other (values_of-append k xs ys)
]

node_values :
    (k : Key) (o : Option Key) (v : ℕ) (ns : Bucket)
    → LacksKey o ns
    → values_of k (walked o v) ++ unless_null (value k ns)
      ≡ unless_null (if has_key k o then v else value k ns)
unfolding walked has_key
node_values k none v ns lacks = refl
node_values k (some j) v ns lacks = elim (Bool-cases (same k j)) [
  | inl it ↦
      let gone : value k ns ≡ 0 = absent k ns (at_key k (some j) ns lacks it) in
      elim (Bool-cases (v == 0)) [
        | inl null ↦ rw (it, gone, null) refl
        | inr full ↦ rw (full, it, gone, full) refl
      ]
  | inr other ↦ elim (Bool-cases (v == 0)) [
    | inl null ↦ rw (other, null) refl
    | inr full ↦ rw (full, other) refl
  ]
]

values_of-walk_bucket :
    (k : Key) (ns : Bucket) → Unique ns → values_of k (walk_bucket ns) ≡ unless_null (value k ns)
unfolding walk_bucket value
values_of-walk_bucket k [] u = refl
values_of-walk_bucket k (n ∷ ns) u =
    values_of-append k (walked n.key n.val) (walk_bucket ns)
    ∙ ap (λ l. values_of k (walked n.key n.val) ++ l) (values_of-walk_bucket k ns u.1)
    ∙ node_values k n.key n.val ns u.0

-- Each key stands in the bucket of its number only.
abbrev pub Placed : Table → Type 0
Placed t = (i : ℕ) (k : Key) → (i == hash k % t.prime) ≡ false → present k (t.zen i) ≡ false

within : ℕ → ℕ → ℕ → Bool
within i n at = leb i at && ltb at (i + n)

within_none : (i at : ℕ) → within i 0 at ≡ false
unfolding within
within_none i at = ground arith

within_first : (i n at : ℕ) → i ≡ at → within i (suc n) at ≡ true
unfolding within
within_first i n at e = ground arith

within_behind : (i n at : ℕ) → i ≡ at → within (i + 1) n at ≡ false
unfolding within
within_behind i n at e = ground arith

within_later : (i n at : ℕ) → (i == at) ≡ false → within (i + 1) n at ≡ within i (suc n) at
unfolding within
within_later i n at other = ground arith

unless_null-nil : (v : ℕ) → unless_null v ++ [] ≡ unless_null v
unless_null-nil v = elim (Bool-cases (v == 0)) [ inl null ↦ rw null refl | inr full ↦ rw full refl ]

bucket_values :
    (k : Key) (t : Table) (n i : ℕ)
    → Placed t
    → unless_null (value k (t.zen i))
        ++ (if within (i + 1) n (hash k % t.prime) then unless_null (get k t) else [])
      ≡ (if within i (suc n) (hash k % t.prime) then unless_null (get k t) else [])
bucket_values k t n i placed =
    let at = hash k % t.prime in
    elim (Bool-cases (i == at)) [
      | inl here ↦
          let e : i ≡ at = ground arith in
          let found : value k (t.zen i) ≡ get k t =
            ap (λ m. value k (t.zen m)) e ∙ sym (get_lem k t) in
          rw (within_behind i n at e, within_first i n at e, found) (unless_null-nil (get k t))
      | inr other ↦ rw (absent k (t.zen i) (placed i k other), within_later i n at other) refl
    ]

values_of-walk_from :
    (k : Key) (t : Table) (n i : ℕ)
    → Valid t
    → Placed t
    → values_of k (walk_from n i t)
      ≡ (if within i n (hash k % t.prime) then unless_null (get k t) else [])
unfolding walk_from
values_of-walk_from k t zero i valid placed = rw (within_none i (hash k % t.prime)) refl
values_of-walk_from k t (suc n) i valid placed =
    values_of-append k (walk_bucket (t.zen i)) (walk_from n (i + 1) t)
    ∙ ap₂ (λ a b. a ++ b) (values_of-walk_bucket k (t.zen i) (valid i))
        (values_of-walk_from k t n (i + 1) valid placed)
    ∙ bucket_values k t n i placed

lacks-add_second :
    (k : Key) (v : ℕ) (flag : Bool) (j : Key) (ns : Bucket)
    → present j ns ≡ false
    → same j k ≡ false
    → present j (add_second (written k v flag) ns) ≡ false
unfolding add_second present has_key
lacks-add_second k v flag j [] out other = ground arith
lacks-add_second k v flag j (m ∷ ns) out other = ground arith

lacks-write :
    (k : Key) (v : ℕ) (flag : Bool) (j : Key) (ns : Bucket)
    → present j ns ≡ false
    → same j k ≡ false
    → present j (write k (written k v flag) ns).0 ≡ false
unfolding write write_found write_other
lacks-write k v flag j ns out other = elim (find-cases k ns) [
  | inl (none_found, lacks) ↦ elim (Option-cases (free_first ns)) [
    | inl full ↦ rw (none_found, full) (lacks-add_second k v flag j ns out other)
    | inr (m, free) ↦ rw (none_found, free) (lacks-write_free k v flag j ns out other)
  ]
  | inr (m, found, here) ↦ rw found (lacks-write_key k v flag j ns out other)
]

set_with-Placed :
    (flag : Bool) (k : Key) (v : ℕ) (t : Table) → Placed t → Placed (set_with flag k v t)
unfolding set_with
set_with-Placed flag k v t placed i j off = elim (Bool-cases (i == hash k % t.prime)) [
  | inl here ↦
      let e : i ≡ hash k % t.prime = ground arith in
      let other = elsewhere k j t (subst (λ m. (hash j % t.prime == m) ≡ false) e (ground arith)) in
      subst (λ b. present j b ≡ false) (sym (zen-set_with flag k v t i ∙ rw here refl))
        (lacks-write k v flag j (t.zen (hash k % t.prime))
          (subst (λ m. present j (t.zen m) ≡ false) e (placed i j off)) other)
  | inr there ↦
      subst (λ b. present j b ≡ false) (sym (zen-set_with flag k v t i ∙ rw there refl))
        (placed i j off)
]

step-Placed : (c : Call) (t : Table) → Placed t → ((step c t).prime ≡ t.prime) × Placed (step c t)
unfolding step set store_copy set_with
step-Placed (sets k v) t placed = (refl, set_with-Placed false k v t placed)
step-Placed (stores [] copy) t placed = (refl, placed)
step-Placed (stores (c ∷ k) copy) t placed = (refl, set_with-Placed true (c ∷ k) copy t placed)

run-Placed :
    (cs : List Call) (t : Table) → Placed t → ((run cs t).prime ≡ t.prime) × Placed (run cs t)
unfolding run
run-Placed [] t placed = (refl, placed)
run-Placed (c ∷ cs) t placed =
    let (same_prime, placed') = step-Placed c t placed in
    let (prime, kept) = run-Placed cs (step c t) placed' in (prime ∙ same_prime, kept)

new-Placed : (prime : ℕ) → Placed (new prime)
unfolding new empty_node present has_key
new-Placed prime i k off = refl

within_all : (h n : ℕ) → 0 < n → within 0 n (h % n) ≡ true
unfolding within
within_all h n pos = let small : h % n < n = mod-lt h pos in ground arith

-- After any row of `xht_set` and `xht_store` on a new table with at least one bucket, `xht_get` gives for
-- each key the value of the last call for that key, or NULL: what a function from keys to values gives,
-- in which each call changes one key; and `xht_walk` passes the key on once, with that value, unless it
-- is NULL, and then never.
pub walk-run :
    (prime : ℕ) (cs : List Call) (k : Key)
    → 0 < prime
    → (get k (run cs (new prime)) ≡ plain_run cs (λ j. 0) k)
      × (values_of k (walk (run cs (new prime))) ≡ unless_null (plain_run cs (λ j. 0) k))
unfolding walk new
walk-run prime cs k pos =
    let t = run cs (new prime) in
    let (valid, shows) = run-Shows cs (λ j. 0) (new prime) (new-Shows prime) in
    let (same_prime, placed) = run-Placed cs (new prime) (new-Placed prime) in
    let all : within 0 t.prime (hash k % t.prime) ≡ true =
      within_all (hash k) t.prime (subst (λ n. 0 < n) (sym same_prime) pos) in
    (
      shows k,
      values_of-walk_from k t t.prime 0 valid placed ∙ rw all refl ∙ ap unless_null (shows k),
    )
