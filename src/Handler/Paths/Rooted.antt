-- ===== src/Handler/Paths/Rooted.antt =====
-- Every path starts with a slash.
use hateblog_backend.Common.{
  ◌≡◌, refl, inl, inr, Bool, true, false, ◌||◌, [], ◌∷◌, ◌++◌, arith, if◌then◌else◌, Bool-cases,
  Bytes, bytes_eq, is_empty, trim_space, has_prefix,
}
use hateblog_backend.Handler.Paths.{
  normalize_api_base_path, join_api_path, trim_slashes, slash, with_slash,
}

pub with_slash_rooted : (s : Bytes) → has_prefix (with_slash s) slash ≡ true
unfolding with_slash has_prefix
with_slash_rooted [] = refl
with_slash_rooted (c ∷ s) = ground arith

pub trim_slashes_rooted :
    (s : Bytes)
    → has_prefix s slash ≡ true
    → is_empty (trim_slashes s) ≡ false
    → has_prefix (trim_slashes s) slash ≡ true
unfolding trim_slashes has_prefix
trim_slashes_rooted [] h k = cc h
trim_slashes_rooted (c ∷ s) h k = ground arith

has_prefix-append : (s t : Bytes) → has_prefix s slash ≡ true → has_prefix (s ++ t) slash ≡ true
unfolding has_prefix
has_prefix-append [] t h = cc h
has_prefix-append (c ∷ s) t h = ground arith

normalize_api_base_path_rooted :
    (value : Bytes)
    → is_empty (normalize_api_base_path value) ≡ false
    → has_prefix (normalize_api_base_path value) slash ≡ true
unfolding normalize_api_base_path
normalize_api_base_path_rooted value h = go (trim_space value) h
  where
    base : Bytes → Bytes
    base t =
        if is_empty t
        then []
        else if bytes_eq (with_slash t) slash
        then with_slash t
        else trim_slashes (with_slash t)

    chosen : Bytes → Bool → Bytes
    chosen t b = if b then with_slash t else trim_slashes (with_slash t)

    rooted :
        (t : Bytes) (b : Bool)
        → is_empty (chosen t b) ≡ false
        → has_prefix (chosen t b) slash ≡ true
    rooted t true k = with_slash_rooted t
    rooted t false k = trim_slashes_rooted (with_slash t) (with_slash_rooted t) k

    go : (t : Bytes) → is_empty (base t) ≡ false → has_prefix (base t) slash ≡ true
    go [] k = cc k
    go (c ∷ s) k = rooted (c ∷ s) (bytes_eq (with_slash (c ∷ s)) slash) k

-- A path of the API starts with a slash, whatever the base path and the route are.
pub join_api_path_rooted :
    (base_path route : Bytes) → has_prefix (join_api_path base_path route) slash ≡ true
unfolding join_api_path
join_api_path_rooted base_path route =
    go (normalize_api_base_path base_path) (normalize_api_base_path_rooted base_path)
  where
    go :
        (n : Bytes)
        → (is_empty n ≡ false → has_prefix n slash ≡ true)
        → has_prefix
            (if is_empty n || bytes_eq n slash then with_slash route else n ++ with_slash route)
            slash
          ≡ true
    go [] h = with_slash_rooted route
    go (c ∷ s) h = elim (Bool-cases (bytes_eq (c ∷ s) slash)) [
      | inl root ↦ rw root (with_slash_rooted route)
      | inr other ↦ rw other (has_prefix-append (c ∷ s) (with_slash route) (h refl))
    ]
