-- ===== src/Store/Fnv.antt =====
-- Go's hash/fnv, New32a: the hash by which store_memory.go and internal/cluster/hashring.go place
-- keys.
use Prim.Native.Nat.{bit_xor}
use cache_grid.Base.{ℕ, ◌*◌, ◌%◌, ◌^◌, ◌<◌, Bytes, [], ◌∷◌, arith}

unfoldable pub fnv_loop : ℕ → Bytes → ℕ
fnv_loop h [] = h
fnv_loop h (b ∷ bs) = fnv_loop ((bit_xor h b * 16777619) % 2 ^ 32) bs

unfoldable pub fnv32a : Bytes → ℕ
unfolding fnv_loop
fnv32a key = fnv_loop 2166136261 key

fnv_loop-lt : (bs : Bytes) (h : ℕ) → h < 2 ^ 32 → fnv_loop h bs < 2 ^ 32
unfolding fnv_loop
fnv_loop-lt [] h lt = lt
fnv_loop-lt (b ∷ bs) h lt = fnv_loop-lt bs ((bit_xor h b * 16777619) % 2 ^ 32) (omega arith)

pub fnv32a-lt : (key : Bytes) → fnv32a key < 2 ^ 32
unfolding fnv32a
fnv32a-lt key = fnv_loop-lt key 2166136261 (omega arith)
