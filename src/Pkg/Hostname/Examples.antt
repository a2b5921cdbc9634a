-- ===== src/Pkg/Hostname/Examples.antt =====
-- Tests of Normalize, and the theorems about it at concrete host names.
use hateblog_backend.Common.{
  ◌+◌, ◌≡◌, refl, ◌&&◌, Option, none, some, map, leb, if◌then◌else◌, ok, Bytes, codes, bytes_eq,
  trim_space, has_prefix,
}
use hateblog_backend.Pkg.Hostname.{
  normalize, host_of, check_host, contains, trim_dot, is_separator, host_pattern,
}
use hateblog_backend.Pkg.Hostname.Laws.{IsHost, normalize-IsHost}

abbrev lower : Bytes → Bytes
lower = map (λ c. if leb b'A' c && leb c b'Z' then c + 32 else c)

-- url.Parse at the one URL of the tests.
abbrev sample_host : Bytes → Option Bytes
sample_host u =
    if bytes_eq u (codes "https://Example.com/a") then some (codes "Example.com") else none

normalize_url :
    normalize sample_host lower (codes " https://Example.com/a ") ≡ ok (codes "example.com")
unfolding normalize host_of check_host contains trim_dot trim_space has_prefix is_separator
    host_pattern
normalize_url = refl

-- One dot is cut from the end, not all of them.
normalize_dots : normalize sample_host lower (codes "a.b..") ≡ ok (codes "a.b.")
unfolding normalize host_of check_host contains trim_dot trim_space has_prefix is_separator
    host_pattern
normalize_dots = refl

normalize-IsHost_example : IsHost (codes "example.com")
normalize-IsHost_example =
    normalize-IsHost sample_host lower (codes " https://Example.com/a ") (codes "example.com")
      normalize_url
