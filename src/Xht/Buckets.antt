-- ===== src/Xht/Buckets.antt =====
-- src/lib/xht.c: what a write leaves in a bucket.
use telehash_c.Prelude.{
  ℕ, ◌≡◌, refl, ◌∙◌, inl, inr, Bool, true, false, Option, none, some, [], ◌∷◌, arith, ◌==◌,
  if◌then◌else◌, Bool-cases,
}
use telehash_c.Xht.{
  Key, same, Node, Bucket, has_key, write_key, free_first, write_free, add_second, write_other,
  write_found, write,
}
use telehash_c.Xht.Keys.{
  same-sym, has_one, has_same, present, value, find-cases, LacksKey, Unique, absent, at_key,
  empty_key,
}

module _ (k : Key) (v : ℕ) (flag : Bool) where
  abbrev pub written : Node
  written = record { key = some k; val = v; flag = flag }

  value-write_key :
      (j : Key) (ns : Bucket)
      → present k ns ≡ true
      → value j (write_key k written ns) ≡ (if same j k then v else value j ns)
  unfolding write_key present value has_key
  value-write_key j [] e = cc
  value-write_key j (m ∷ ns) e =
      ground (arith, value-write_key j ns, has_same j k m.key, has_one j k m.key)

  value-write_free :
      (j : Key) (ns : Bucket) (n : Node)
      → Unique ns
      → present k ns ≡ false
      → free_first ns ≡ some n
      → value j (write_free written ns) ≡ (if same j k then v else value j ns)
  unfolding write_free present value free_first has_key
  value-write_free j [] n u out e = cc
  value-write_free j (m ∷ ns) n u out e =
      ground
        (arith, value-write_free j ns n u.1, has_same j k m.key, empty_key j m ns u.0, absent j ns)

  value-add_second :
      (j : Key) (ns : Bucket)
      → present k ns ≡ false
      → value j (add_second written ns) ≡ (if same j k then v else value j ns)
  unfolding add_second present value has_key
  value-add_second j [] out = ground arith
  value-add_second j (m ∷ ns) out = ground (arith, has_same j k m.key)

  pub lacks-write_key :
      (j : Key) (ns : Bucket)
      → present j ns ≡ false
      → same j k ≡ false
      → present j (write_key k written ns) ≡ false
  unfolding write_key present has_key
  lacks-write_key j [] out other = refl
  lacks-write_key j (m ∷ ns) out other = ground (arith, lacks-write_key j ns)

  pub lacks-write_free :
      (j : Key) (ns : Bucket)
      → present j ns ≡ false
      → same j k ≡ false
      → present j (write_free written ns) ≡ false
  unfolding write_free present has_key
  lacks-write_free j [] out other = refl
  lacks-write_free j (m ∷ ns) out other = ground (arith, lacks-write_free j ns)

  -- A key in front of a bucket, under a change of what is behind it.
  lacks_still :
      (o : Option Key) (ns ms : Bucket)
      → LacksKey o ns
      → has_key k o ≡ false
      → ((j : Key) → present j ns ≡ false → same j k ≡ false → present j ms ≡ false)
      → LacksKey o ms
  unfolding has_key
  lacks_still none ns ms lacks other keeps = tt
  lacks_still (some i) ns ms lacks other keeps = keeps i lacks (same-sym i k ∙ other)

  write_key-Unique : (ns : Bucket) → Unique ns → Unique (write_key k written ns)
  unfolding write_key
  write_key-Unique [] u = tt
  write_key-Unique (m ∷ ns) u = elim (Bool-cases (has_key k m.key)) [
    | inl here ↦ rw here (at_key k m.key ns u.0 here, u.1)
    | inr there ↦ rw there (
      lacks_still m.key ns (write_key k written ns) u.0 there
          (λ j out other. lacks-write_key j ns out other),
      write_key-Unique ns u.1,
    )
  ]

  write_free-Unique :
      (ns : Bucket) → Unique ns → present k ns ≡ false → Unique (write_free written ns)
  unfolding write_free present
  write_free-Unique [] u out = tt
  write_free-Unique (m ∷ ns) u out =
      let behind : present k ns ≡ false = ground arith in
      let other : has_key k m.key ≡ false = ground arith in
      elim (Bool-cases (m.val == 0)) [
        | inl empty ↦ rw empty (behind, u.1)
        | inr full ↦ rw full (
          lacks_still m.key ns (write_free written ns) u.0 other
              (λ j out other. lacks-write_free j ns out other),
          write_free-Unique ns u.1 behind,
        )
      ]

  add_second-Unique :
      (ns : Bucket) → Unique ns → present k ns ≡ false → Unique (add_second written ns)
  unfolding add_second present has_key
  add_second-Unique [] u out = (refl, tt)
  add_second-Unique (m ∷ ns) u out =
      let behind : present k ns ≡ false = ground arith in
      let other : has_key k m.key ≡ false = ground arith in
      (
        lacks_still m.key ns (written ∷ ns) u.0 other (λ j lacks differ. rw differ lacks),
        (behind, u.1),
      )

  -- A write to a bucket whose keys are all different keeps them so, and changes the value of its key only.
  abbrev pub Written : Bucket → Bucket → Type 0
  Written ns ms = Unique ms × ((j : Key) → value j ms ≡ (if same j k then v else value j ns))

  write_other-Written :
      (ns : Bucket) (o : Option Node)
      → free_first ns ≡ o
      → Unique ns
      → present k ns ≡ false
      → Written ns (write_other written ns o).0
  unfolding write_other
  write_other-Written ns (some n) e u out =
      (write_free-Unique ns u out, λ j. value-write_free j ns n u out e)
  write_other-Written ns none e u out = (add_second-Unique ns u out, λ j. value-add_second j ns out)

  pub write-Written : (ns : Bucket) → Unique ns → Written ns (write k written ns).0
  unfolding write write_found
  write-Written ns u = elim (find-cases k ns) [
    | inl (none_found, out) ↦ rw none_found (write_other-Written ns (free_first ns) refl u out)
    | inr (n, found, here) ↦ rw found (write_key-Unique ns u, λ j. value-write_key j ns here)
  ]
