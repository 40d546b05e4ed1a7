-- ===== src/UtilChunks/Chunking.antt =====
-- What src/util/chunks.c promises of a stream: each chunk has a size byte and up to `cap` bytes, and an
-- empty chunk ends the packet.
use Prim.Native.Nat.{min}
use telehash_c.Prelude.{ℕ, zero, suc, List, [], ◌∷◌, ◌++◌, length, take, drop}

-- The chunks with data; the fuel is more than the bytes.
unfoldable pub chunks_of : ℕ → ℕ → List ℕ → List ℕ
chunks_of cap zero rest = []
chunks_of cap (suc k) [] = []
chunks_of cap (suc k) (b ∷ rest) =
    let n : ℕ = min (length (b ∷ rest)) cap in
    n ∷ (take n (b ∷ rest) ++ chunks_of cap k (drop n (b ∷ rest)))

unfoldable pub encode : ℕ → List ℕ → List ℕ
unfolding chunks_of
encode cap p = chunks_of cap (length p) p ++ 0 ∷ []
