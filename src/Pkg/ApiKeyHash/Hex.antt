-- ===== src/Pkg/ApiKeyHash/Hex.antt =====
-- Verify accepts the keys with the stored digest, and no others.
use hateblog_backend.Common.{
  ℕ, ◌/◌, ◌%◌, ◌<◌, ◌≡◌, refl, ap, ap₂, ◌↔◌, true, [], ◌∷◌, ◌++◌, arith, All, Bytes, bytes_eq_iff,
  bytes_eq_refl, has_prefix,
}
use hateblog_backend.Pkg.ApiKeyHash.{hex_digit, hex_encode, hash_prefix, hash, verify}

hex_digit-inj : (a b : ℕ) → a < 16 → b < 16 → hex_digit a ≡ hex_digit b → a ≡ b
unfolding hex_digit
hex_digit-inj a b h k e = ground arith

byte-inj : (a b : ℕ) → a / 16 ≡ b / 16 → a % 16 ≡ b % 16 → a ≡ b
byte-inj a b h k = omega arith

abbrev pub IsBytes : Bytes → Type 0
IsBytes = All (λ c. c < 256)

-- hex.EncodeToString tells byte slices apart.
pub hex_encode-inj : (s t : Bytes) → IsBytes s → IsBytes t → hex_encode s ≡ hex_encode t → s ≡ t
unfolding hex_encode
hex_encode-inj [] [] hs ht e = refl
hex_encode-inj [] (b ∷ t) hs ht e = cc e
hex_encode-inj (a ∷ s) [] hs ht e = cc e
hex_encode-inj (a ∷ s) (b ∷ t) (ha, hs) (hb, ht) e =
    let high : hex_digit (a / 16) ≡ hex_digit (b / 16) = cc e in
    let low : hex_digit (a % 16) ≡ hex_digit (b % 16) = cc e in
    let rest : hex_encode s ≡ hex_encode t = cc e in
    ap₂ ◌∷◌
      (byte-inj a b (hex_digit-inj (a / 16) (b / 16) (omega arith) (omega arith) high)
        (hex_digit-inj (a % 16) (b % 16) (omega arith) (omega arith) low))
      (hex_encode-inj s t hs ht rest)

has_prefix-append : (p s : Bytes) → has_prefix (p ++ s) p ≡ true
unfolding has_prefix
has_prefix-append [] s = refl
has_prefix-append (c ∷ p) s = ground (arith, has_prefix-append p s)

append-cancel : (p s t : Bytes) → p ++ s ≡ p ++ t → s ≡ t
append-cancel [] s t e = e
append-cancel (c ∷ p) s t e = append-cancel p s t (cc e)

module _ (sha256 : Bytes → Bytes) where
  hash_prefixed : (plaintext : Bytes) → has_prefix (hash sha256 plaintext) hash_prefix ≡ true
  unfolding hash
  hash_prefixed plaintext = has_prefix-append hash_prefix (hex_encode (sha256 plaintext))

  -- Verify accepts a key exactly if the stored text is the hash of that key.
  pub verify_iff :
      (stored plaintext : Bytes)
      → (verify sha256 stored plaintext ≡ true) ↔ (stored ≡ hash sha256 plaintext)
  unfolding verify
  verify_iff stored plaintext = (
    (λ h. (bytes_eq_iff stored (hash sha256 plaintext)).0 (ground arith)),
    (λ e. rw (e, hash_prefixed plaintext) (bytes_eq_refl (hash sha256 plaintext))),
  )

  -- With a digest of bytes, the hash of one key is verified by another key exactly if the two have
  -- the same digest.
  pub verify-hash :
      ((s : Bytes) → IsBytes (sha256 s))
      → (p q : Bytes) → (verify sha256 (hash sha256 p) q ≡ true) ↔ (sha256 p ≡ sha256 q)
  unfolding hash
  verify-hash digest p q = (
    (λ h. hex_encode-inj (sha256 p) (sha256 q) (digest p) (digest q) (
        append-cancel hash_prefix (hex_encode (sha256 p)) (hex_encode (sha256 q))
          ((verify_iff (hash sha256 p) q).0 h))),
    (λ e. (verify_iff (hash sha256 p) q).1 (ap (λ d. hash_prefix ++ hex_encode d) e)),
  )
