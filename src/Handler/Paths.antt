-- ===== src/Handler/Paths.antt =====
-- internal/infra/handler/paths.go: the paths of the API under its base path.
pub mod Rooted
use hateblog_backend.Common.{
  ◌+◌, ◌-◌, ◌/◌, ap, ◌&&◌, ◌||◌, none, [], ◌∷◌, ◌++◌, ◌==◌, if◌then◌else◌, Bytes, codes, bytes_eq,
  is_empty, trim_space, has_prefix,
}

-- strings.TrimRight(s, "/")
unfoldable pub trim_slashes : Bytes → Bytes
trim_slashes [] = []
trim_slashes (c ∷ s) =
    let rest = trim_slashes s in if (c == b'/') && is_empty rest then [] else c ∷ rest

abbrev pub slash : Bytes
slash = codes "/"

-- Puts a slash in front of a text that has none.
unfoldable pub with_slash : Bytes → Bytes
with_slash s = if has_prefix s slash then s else slash ++ s

unfoldable pub normalize_api_base_path : Bytes → Bytes
unfolding trim_slashes
normalize_api_base_path value =
    let trimmed = trim_space value in
    let rooted = with_slash trimmed in
    if is_empty trimmed then [] else if bytes_eq rooted slash then rooted else trim_slashes rooted

unfoldable pub join_api_path : Bytes → Bytes → Bytes
join_api_path base_path route =
    let normalized = normalize_api_base_path base_path in
    if is_empty normalized || bytes_eq normalized slash
    then with_slash route
    else normalized ++ with_slash route
