-- ===== src/Xht/Tests.antt =====
-- src/lib/xht.c: runs of the hash table, and the theorem at a concrete input.
use telehash_c.Prelude.{◌≡◌, refl, false, some, List, [], ◌∷◌}
use telehash_c.Xht.{Key, hash, same, find, new, set, get, walk}
use native.Mathlib.Omega.{arith}
use telehash_c.Xht.Walking.{values_of, walk-run}
use telehash_c.Xht.Laws.{Call, sets, stores, run, plain_run, get-run}

abbrev ab : Key
ab = b'a' ∷ b'b' ∷ []

abbrev ba : Key
ba = b'b' ∷ b'a' ∷ []

-- A long key, whose highest bits are mixed in.
hash_long : hash (b'z' ∷ b'z' ∷ b'z' ∷ b'z' ∷ b'z' ∷ b'z' ∷ b'z' ∷ b'z' ∷ []) ≡ 35793466
unfolding hash
hash_long = refl

abbrev calls : List Call
calls = sets ab 7 ∷ sets ba 8 ∷ stores [] 5 ∷ sets ab 0 ∷ stores ba 9 ∷ stores ba 6 ∷ []

-- The value of a stored copy is freed when the key is stored again.
freed_copy : (run calls (new 1)).frees ≡ 9 ∷ []
unfolding run new
freed_copy = refl

walked_one : walk (run calls (new 1)) ≡ (ba, 6) ∷ []
unfolding run new walk
walked_one = refl

-- A key whose value was set to NULL is still in its bucket.
key_stays :
    find ab ((set ab 0 (set ab 7 (new 1))).zen 0)
    ≡ some (record { key = some ab; val = 0; flag = false })
unfolding set new find
key_stays = refl

get-run_case : get ba (run calls (new 11)) ≡ 6
unfolding plain_run same
get-run_case = get-run 11 calls ba

walk-run_example :
    (get ba (run calls (new 11)) ≡ 6) × (values_of ba (walk (run calls (new 11))) ≡ 6 ∷ [])
unfolding plain_run same
walk-run_example = walk-run 11 calls ba (omega arith)
