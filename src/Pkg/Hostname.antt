-- ===== src/Pkg/Hostname.antt =====
-- internal/pkg/hostname/hostname.go: host names in one spelling.
pub mod Laws
pub mod Examples
use hateblog_backend.Common.{
  ℕ, ◌+◌, ◌-◌, ◌/◌, ◌^◌, Bool, not, ◌&&◌, ◌||◌, Option, none, some, [], ◌∷◌, leb, ◌==◌,
  if◌then◌else◌, all, any, Result, ok, err, ◌>>=◌, ◌>>◌, reject_if, Bytes, codes, is_empty,
  trim_space, has_prefix,
}

pub data HostnameError : Type 0 where
  hostname_required : HostnameError
  invalid_hostname : Bytes → HostnameError

-- strings.Contains(s, p)
contains : Bytes → Bytes → Bool
contains [] p = has_prefix [] p
contains (c ∷ s) p = has_prefix (c ∷ s) p || contains s p

-- strings.TrimSuffix(s, ".")
unfoldable pub trim_dot : Bytes → Bytes
trim_dot [] = []
trim_dot (c ∷ []) = if c == b'.' then [] else c ∷ []
trim_dot (c ∷ d ∷ s) = c ∷ trim_dot (d ∷ s)

-- `[a-z0-9.-]`
abbrev pub is_host_byte : ℕ → Bool
is_host_byte c =
    (leb b'a' c && leb c b'z') || ((leb b'0' c && leb c b'9') || (c == b'.' || c == b'-'))

-- `^[a-z0-9.-]+$`
host_pattern : Bytes → Bool
host_pattern s = not (is_empty s) && all is_host_byte s

-- The bytes of "/ \\", for strings.ContainsAny.
is_separator : ℕ → Bool
is_separator c = c == b'/' || (c == b' ' || c == b'\\')

-- `url_host` is url.Parse followed by the field Host: `none` if the parse fails.
-- `to_lower` is strings.ToLower.
module _ (url_host : Bytes → Option Bytes) (to_lower : Bytes → Bytes) where
  -- The part of a value that has a scheme.
  host_of : Bytes → Bytes → Result HostnameError Bytes
  unfolding contains
  host_of raw value =
      if contains value (codes "://")
      then elim (url_host value) [
        | none ↦ err (invalid_hostname raw)
        | some host ↦ if is_empty host then err (invalid_hostname raw) else ok host
      ]
      else ok value

  -- The checks behind the lower-case form.
  check_host : Bytes → Bytes → Result HostnameError Bytes
  unfolding host_pattern is_separator
  check_host raw value = do
    reject_if (is_empty value) (invalid_hostname raw)
    reject_if (any is_separator value) (invalid_hostname raw)
    reject_if (not (host_pattern value)) (invalid_hostname raw)
    ok value

  unfoldable pub normalize : Bytes → Result HostnameError Bytes
  unfolding host_of check_host trim_dot
  normalize raw = do
    let value = trim_space raw
    reject_if (is_empty value) hostname_required
    host ← host_of raw value
    check_host raw (trim_dot (to_lower host))
