-- ===== src/Batch/Updater/Https.antt =====
-- URLs that begin with http://, and the ones with https:// that are made of them.
use hateblog_backend.Common.{
  ◌≡◌, refl, sym, ap₂, ◌∙◌, true, false, [], ◌∷◌, ◌++◌, arith, ◌==◌, ==_iff, &&-true, length, drop,
  Bytes, bytes_eq, has_prefix, trim_prefix,
}
use hateblog_backend.Batch.Updater.{http_prefix, https_prefix, https_url}

-- `url LIKE 'http://%'`
abbrev pub IsHttp : Bytes → Type 0
IsHttp u = has_prefix u http_prefix ≡ true

has_prefix-split : (u p : Bytes) → has_prefix u p ≡ true → u ≡ p ++ drop (length p) u
unfolding has_prefix
has_prefix-split u [] h = refl
has_prefix-split [] (b ∷ p) h = ground arith
has_prefix-split (a ∷ u) (b ∷ p) h =
    let (same, rest) = &&-true (a == b) (has_prefix u p) h in
    ap₂ ◌∷◌ ((==_iff a b).0 same) (has_prefix-split u p rest)

bytes_eq-append : (p s t : Bytes) → bytes_eq (p ++ s) (p ++ t) ≡ bytes_eq s t
bytes_eq-append [] s t = refl
bytes_eq-append (a ∷ p) s t = ground (arith, bytes_eq-append p s t)

https_url_of_http : (u : Bytes) → IsHttp u → https_url u ≡ https_prefix ++ drop 7 u
unfolding https_url trim_prefix http_prefix
https_url_of_http u h = rw h refl

-- A URL that begins with http:// is none that begins with https://.
pub http_neq_https : (u v : Bytes) → IsHttp u → bytes_eq u (https_url v) ≡ false
unfolding https_url http_prefix https_prefix
http_neq_https u v h = rw (has_prefix-split u http_prefix h) refl

pub https_url_inj :
    (u v : Bytes) → IsHttp u → IsHttp v → bytes_eq (https_url u) (https_url v) ≡ bytes_eq u v
unfolding http_prefix
https_url_inj u v h k =
    rw (https_url_of_http u h, https_url_of_http v k)
      (bytes_eq-append https_prefix (drop 7 u) (drop 7 v)
        ∙ sym (bytes_eq-append http_prefix (drop 7 u) (drop 7 v))
        ∙ sym (ap₂ bytes_eq (has_prefix-split u http_prefix h) (has_prefix-split v http_prefix k)))
