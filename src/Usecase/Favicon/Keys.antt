-- ===== src/Usecase/Favicon/Keys.antt =====
-- The three kinds of keys of a host never meet.
use hateblog_backend.Common.{
  ◌<◌, ◌≡◌, refl, ap, ◌∙◌, inl, inr, true, false, [], ◌∷◌, ◌++◌, arith, Bool-cases, length, all,
  length-append, Bytes, codes, bytes_eq, bytes_eq_sym, bytes_eq_sound,
}
use hateblog_backend.Pkg.Hostname.{is_host_byte}
use hateblog_backend.Pkg.Hostname.Laws.{IsHost}
use hateblog_backend.Usecase.Favicon.{icon_key, negative_key, limit_key}

-- A text of host bytes has no colon.
no_colon : (s t : Bytes) → all is_host_byte s ≡ true → all is_host_byte (t ++ 58 ∷ s) ≡ false
no_colon s [] h = refl
no_colon s (a ∷ t) h = ground (arith, no_colon s t h)

neg_not_host : (t : Bytes) → all is_host_byte (t ++ codes ":neg") ≡ false
neg_not_host [] = refl
neg_not_host (a ∷ t) = ground (arith, neg_not_host t)

bytes_eq-host :
    (s t : Bytes) → all is_host_byte s ≡ true → all is_host_byte t ≡ false → bytes_eq s t ≡ false
bytes_eq-host s t h n = elim (Bool-cases (bytes_eq s t)) [
  | inr other ↦ other
  | inl same ↦ absurd (ground (arith, h, n, ap (all is_host_byte) (bytes_eq_sound s t same)))
]

-- The key of an icon is no key for a failure, nor one of the limiter, of whatever host.
pub icon_key-negative_key :
    (host other : Bytes)
    → IsHost host
    → (bytes_eq (icon_key host) (negative_key (icon_key other)) ≡ false)
      × (bytes_eq (icon_key host) (limit_key other) ≡ false)
unfolding icon_key negative_key limit_key
icon_key-negative_key host other (filled, h) = (
  bytes_eq-host host (other ++ codes ":neg") h (neg_not_host other),
  bytes_eq-host host (codes "ratelimit:" ++ other) h refl,
)

length_apart : (s t : Bytes) → length s < length t → bytes_eq s t ≡ false
length_apart s t less = elim (Bool-cases (bytes_eq s t)) [
  | inr other ↦ other
  | inl same ↦ absurd (omega (arith, less, ap length (bytes_eq_sound s t same)))
]

-- For one host, the key of a failure is not that of the limiter. For two hosts they may be the same.
pub negative_key-limit_key :
    (host : Bytes) → bytes_eq (limit_key host) (negative_key (icon_key host)) ≡ false
unfolding icon_key negative_key limit_key
negative_key-limit_key host =
    bytes_eq_sym (limit_key host) (negative_key (icon_key host))
    ∙ length_apart (host ++ codes ":neg") (codes "ratelimit:" ++ host)
        (omega (arith, length-append host (codes ":neg"), length-append (codes "ratelimit:") host))
