-- ===== src/Pkg/ApiKeyHash.antt =====
-- internal/pkg/apikeyhash/apikeyhash.go: the stored form of an API key. SHA-256 is a parameter.
pub mod Hex
use hateblog_backend.Common.{
  ℕ, ◌+◌, ◌-◌, ◌/◌, ◌%◌, ap, Bool, false, [], ◌∷◌, ◌++◌, ltb, if◌then◌else◌, Bytes, codes, bytes_eq,
  has_prefix,
}

-- A digit of hex.EncodeToString.
unfoldable pub hex_digit : ℕ → ℕ
hex_digit n = if ltb n 10 then b'0' + n else b'a' + (n - 10)

unfoldable pub hex_encode : Bytes → Bytes
hex_encode [] = []
hex_encode (c ∷ s) = hex_digit (c / 16) ∷ hex_digit (c % 16) ∷ hex_encode s

abbrev pub hash_prefix : Bytes
hash_prefix = codes "sha256:"

module _ (sha256 : Bytes → Bytes) where
  unfoldable pub hash : Bytes → Bytes
  hash plaintext = hash_prefix ++ hex_encode (sha256 plaintext)

  -- subtle.ConstantTimeCompare is 1 for equal slices.
  unfoldable pub verify : Bytes → Bytes → Bool
  verify stored plaintext =
      if has_prefix stored hash_prefix then bytes_eq stored (hash plaintext) else false
