-- ===== src/Xht.antt =====
-- src/lib/xht.c: a hash table with a fixed number of buckets, whose first nodes stand in the table.
use Prim.Native.Nat.{bit_and, bit_xor}
use telehash_c.Prelude.{
  ℕ, zero, suc, ◌+◌, ◌-◌, ◌*◌, ◌/◌, ◌%◌, ◌^◌, Bool, true, false, ◌&&◌, Option, none, some, List, [],
  ◌∷◌, ◌++◌, ◌==◌, if◌then◌else◌,
}
mod Keys
mod Buckets
mod Laws
mod Walking
mod Tests

-- A key is the bytes of a C string, and a value a pointer, where 0 is NULL.
abbrev pub Key : Type 0
Key = List ℕ

-- `_xhter`: a key's number, of 28 bits.
unfoldable pub mix : ℕ → ℕ
mix h =
    let g = bit_and h 4026531840 in
    bit_and (if g == 0 then h else bit_xor h (g / 2 ^ 24)) (4294967295 - g)

unfoldable pub hash_from : ℕ → Key → ℕ
unfolding mix
hash_from h [] = h
hash_from h (c ∷ cs) = hash_from (mix ((h * 16 + c) % 2 ^ 32)) cs

unfoldable pub hash : Key → ℕ
unfolding hash_from
hash k = hash_from 0 k

-- `strcmp(a, b) == 0`
unfoldable pub same : Key → Key → Bool
same [] [] = true
same [] (b ∷ bs) = false
same (a ∷ as') [] = false
same (a ∷ as') (b ∷ bs) = (a == b) && same as' bs

pub record Node : Type 0 where
  pub key : Option Key
  pub val : ℕ
  -- Whether the table frees the key and the value.
  pub flag : Bool

abbrev pub Bucket : Type 0
Bucket = List Node

unfoldable pub empty_node : Node
empty_node = record { key = none; val = 0; flag = false }

unfoldable pub has_key : Key → Option Key → Bool
unfolding same
has_key k none = false
has_key k (some j) = same k j

-- `_xht_node_find`.
unfoldable pub find : Key → Bucket → Option Node
unfolding has_key
find k [] = none
find k (n ∷ ns) = if has_key k n.key then some n else find k ns

-- The node with the key is written, or the first one with no value, or a new one that is linked behind
-- the first node. Beside the bucket, the values that are freed.
unfoldable pub freed : Node → List ℕ
freed n = if n.flag then n.val ∷ [] else []

unfoldable pub write_key : Key → Node → Bucket → Bucket
unfolding has_key
write_key k new [] = []
write_key k new (n ∷ ns) =
    let rest = write_key k new ns in if has_key k n.key then new ∷ ns else n ∷ rest

unfoldable pub free_first : Bucket → Option Node
free_first [] = none
free_first (n ∷ ns) = if n.val == 0 then some n else free_first ns

unfoldable pub write_free : Node → Bucket → Bucket
write_free new [] = []
write_free new (n ∷ ns) = let rest = write_free new ns in if n.val == 0 then new ∷ ns else n ∷ rest

unfoldable pub add_second : Node → Bucket → Bucket
add_second new [] = new ∷ []
add_second new (n ∷ ns) = n ∷ new ∷ ns

unfoldable pub write_other : Node → Bucket → Option Node → Bucket × List ℕ
unfolding write_free add_second freed
write_other new ns (some n) = (write_free new ns, freed n)
write_other new ns none = (add_second new ns, [])

unfoldable pub write_found : Key → Node → Bucket → Option Node → Bucket × List ℕ
unfolding write_key write_other free_first freed
write_found k new ns (some n) = (write_key k new ns, freed n)
write_found k new ns none = write_other new ns (free_first ns)

unfoldable pub write : Key → Node → Bucket → Bucket × List ℕ
unfolding write_found find
write k new ns = write_found k new ns (find k ns)

pub record Table : Type 0 where
  pub prime : ℕ
  pub zen : ℕ → Bucket
  pub frees : List ℕ

unfoldable pub new : ℕ → Table
unfolding empty_node
new prime = record { prime = prime; zen = λ i. empty_node ∷ []; frees = [] }

-- `_xht_set`.
unfoldable pub set_with : Bool → Key → ℕ → Table → Table
unfolding write hash
set_with flag k v t =
    let i = hash k % t.prime in
    let (bucket, gone) = write k (record { key = some k; val = v; flag = flag }) (t.zen i) in
    record t { zen = λ j. if j == i then bucket else t.zen j; frees = t.frees ++ gone }

-- `xht_set`, and `xht_store` with a copy of the value at `copy`.
unfoldable pub set : Key → ℕ → Table → Table
unfolding set_with
set k v t = set_with false k v t

unfoldable pub store_copy : Key → ℕ → Table → Table
unfolding set_with
store_copy [] copy t = t
store_copy (c ∷ k) copy t = set_with true (c ∷ k) copy t

unfoldable pub val_of : Option Node → ℕ
val_of none = 0
val_of (some n) = n.val

unfoldable pub get : Key → Table → ℕ
unfolding find hash val_of
get k t = val_of (find k (t.zen (hash k % t.prime)))

-- `xht_walk`: the keys and values that it passes on, of one bucket and of the table.
unfoldable pub walked : Option Key → ℕ → List (Key × ℕ)
walked none v = []
walked (some k) v = if v == 0 then [] else (k, v) ∷ []

unfoldable pub walk_bucket : Bucket → List (Key × ℕ)
unfolding walked
walk_bucket [] = []
walk_bucket (n ∷ ns) = walked n.key n.val ++ walk_bucket ns

unfoldable pub walk_from : ℕ → ℕ → Table → List (Key × ℕ)
unfolding walk_bucket
walk_from zero i t = []
walk_from (suc n) i t = walk_bucket (t.zen i) ++ walk_from n (i + 1) t

unfoldable pub walk : Table → List (Key × ℕ)
unfolding walk_from
walk t = walk_from t.prime 0 t
