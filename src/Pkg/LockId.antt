-- ===== src/Pkg/LockId.antt =====
-- internal/pkg/batchutil/pg_advisory_lock.go: the identifier of an advisory lock. The calls of the
-- database are left out.
use Prim.Native.Nat.{bit_xor}
use hateblog_backend.Common.{
  ℕ, ◌*◌, ◌%◌, ◌^◌, ◌≡◌, refl, false, [], ◌∷◌, ℤ, pos, eqb_ℤ, half64, Bytes, codes,
}

abbrev u64_mod : ℕ
u64_mod = 2 ^ 64

-- The offset basis and the prime of FNV-1a with 64 bits (hash/fnv).
abbrev offset64 : ℕ
offset64 = 14695981039346656037

abbrev prime64 : ℕ
prime64 = 1099511628211

fnv1a : ℕ → Bytes → ℕ
fnv1a hash [] = hash
fnv1a hash (c ∷ s) = fnv1a ((bit_xor hash c * prime64) % u64_mod) s

-- `int64(sum & math.MaxInt64)`: the mask keeps the lower 63 bits.
unfoldable pub lock_id : Bytes → ℤ
unfolding fnv1a
lock_id name = pos (fnv1a offset64 name % half64)

lock_id_fetcher : eqb_ℤ (lock_id (codes "fetcher")) (lock_id (codes "updater")) ≡ false
unfolding lock_id
lock_id_fetcher = refl
