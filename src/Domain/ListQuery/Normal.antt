-- ===== src/Domain/ListQuery/Normal.antt =====
-- What Normalize accepts, what it establishes, and that it changes nothing the second time.
use hateblog_backend.Common.{
  trim_space_idem, ◌∙◌, ap, guard-eq-ok, ltb_ℤ, false, subst, >>=-eq-ok, trim_space,
  trim_space-Trimmed, ap₂, ◌<◌, ◌≡◌, refl, ap, ◌≢◌, ◌↔◌, inl, inr, List, [], ◌∷◌, map, arith, ltb,
  if◌then◌else◌, Bool-cases, length, All, ℤ, pos, ◌≤ℤ◌, ◌<ℤ◌, ok, Bytes, Trimmed,
}
use mathlib.Core.List.{Perm}
use mathlib.Core.List.Perm
use hateblog_backend.Domain.Tag.{normalize_name}
use hateblog_backend.Domain.Entry.{Time}
use hateblog_backend.Domain.ListQuery.{
  SortType, sort_new, sort_hot, unset, unsupported, ListQuery, limit_cap, clamp_limit, resolve_sort,
  sort_strings, normalize, negative_offset, negative_min_bookmark_count, empty_range,
  is_empty_range,
}
use hateblog_backend.Domain.ListQuery.Sorting.{
  IsSorted, sort_strings-IsSorted, sort_strings-perm, sort_strings_of_IsSorted,
}

-- The limit lies between 1 and the cap, which is the override or 1000.
clamp_limit_bounds :
    (limit override : ℤ)
    → (pos 0 <ℤ clamp_limit limit override) × (clamp_limit limit override ≤ℤ limit_cap override)
unfolding clamp_limit
clamp_limit_bounds limit override = ground arith

clamp_limit_idem :
    (limit override : ℤ)
    → clamp_limit (clamp_limit limit override) override ≡ clamp_limit limit override
unfolding clamp_limit
clamp_limit_idem limit override = ground arith

-- Both ends of the range are given.
abbrev pub IsBounded : ListQuery → Type 0
IsBounded q = (q.posted_at_from ≢ 0) × (q.posted_at_to ≢ 0)

abbrev pub IsSupported : SortType → Type 0
IsSupported (unsupported raw) = ⊥
IsSupported _ = Unit

abbrev pub IsResolved : SortType → Type 0
IsResolved sort_new = Unit
IsResolved sort_hot = Unit
IsResolved _ = ⊥

-- What Normalize demands.
pub record IsAcceptable (q : ListQuery) : Type 0 where
  pub offset_least : pos 0 ≤ℤ q.offset
  pub min_least : pos 0 ≤ℤ q.min_bookmark_count
  pub supported : IsSupported q.sort
  pub ordered : IsBounded q → q.posted_at_from < q.posted_at_to

-- What a repository may rely on.
pub record IsNormal (q : ListQuery) : Type 0 where
  pub limit_least : pos 0 <ℤ q.limit
  pub limit_most : q.limit ≤ℤ limit_cap q.max_limit_override
  pub offset_least : pos 0 ≤ℤ q.offset
  pub min_least : pos 0 ≤ℤ q.min_bookmark_count
  pub resolved : IsResolved q.sort
  pub ordered : IsBounded q → q.posted_at_from < q.posted_at_to
  pub trimmed : Trimmed q.keyword
  pub sorted : IsSorted q.tags

abbrev arranged : List Bytes → List Bytes
arranged names = if ltb 1 (length names) then sort_strings names else names

arranged-IsSorted : (names : List Bytes) → IsSorted (arranged names)
arranged-IsSorted [] = tt
arranged-IsSorted (x ∷ []) = tt
arranged-IsSorted (x ∷ y ∷ names) = ground (arith, sort_strings-IsSorted (x ∷ y ∷ names))

arranged-perm : (names : List Bytes) → Perm (arranged names) names
arranged-perm names = elim (Bool-cases (ltb 1 (length names))) [
  | inl many ↦ rw many (sort_strings-perm names)
  | inr few ↦ rw few (Perm.refl names)
]

arranged_of_IsSorted : (names : List Bytes) → IsSorted names → arranged names ≡ names
arranged_of_IsSorted names h = ground (arith, sort_strings_of_IsSorted names h)

resolve_sort-IsResolved :
    (s : SortType) {t : SortType} → resolve_sort s ≡ ok t → IsResolved t × IsSupported s
unfolding resolve_sort
resolve_sort-IsResolved sort_new h = ground arith
resolve_sort-IsResolved sort_hot h = ground arith
resolve_sort-IsResolved unset h = ground arith
resolve_sort-IsResolved (unsupported raw) h = cc

resolve_sort_total : (s : SortType) → IsSupported s → (t : SortType) × (resolve_sort s ≡ ok t)
unfolding resolve_sort
resolve_sort_total sort_new h = (sort_new, refl)
resolve_sort_total sort_hot h = (sort_hot, refl)
resolve_sort_total unset h = (sort_new, refl)
resolve_sort_total (unsupported raw) h = absurd h

resolve_sort_of_IsResolved : (s : SortType) → IsResolved s → resolve_sort s ≡ ok s
unfolding resolve_sort
resolve_sort_of_IsResolved sort_new h = refl
resolve_sort_of_IsResolved sort_hot h = refl
resolve_sort_of_IsResolved unset h = absurd h
resolve_sort_of_IsResolved (unsupported raw) h = absurd h

nonneg_of_test : (a : ℤ) → ltb_ℤ a (pos 0) ≡ false → pos 0 ≤ℤ a
nonneg_of_test a h = ground arith

test_of_nonneg : (a : ℤ) → pos 0 ≤ℤ a → ltb_ℤ a (pos 0) ≡ false
test_of_nonneg a h = ground arith

ordered_of_test : (a b : Time) → is_empty_range a b ≡ false → a ≢ 0 → b ≢ 0 → a < b
unfolding is_empty_range
ordered_of_test a b h p q = ground arith

test_of_ordered : (a b : Time) → ((a ≢ 0) × (b ≢ 0) → a < b) → is_empty_range a b ≡ false
unfolding is_empty_range
test_of_ordered a b h = ground arith

map_fixed {ℓ} : {A : Type ℓ} (f : A → A) (xs : List A) → All (λ x. f x ≡ x) xs → map f xs ≡ xs
map_fixed f [] h = refl
map_fixed f (x ∷ xs) (e, h) = ap₂ ◌∷◌ e (map_fixed f xs h)

module _ (to_lower : Bytes → Bytes) where
  abbrev normal_of : ListQuery → SortType → ListQuery
  normal_of q s = record q {
    tags = arranged (map (normalize_name to_lower) q.tags);
    limit = clamp_limit q.limit q.max_limit_override;
    sort = s;
    keyword = trim_space q.keyword;
  }

  normalize_inv :
      (q r : ListQuery)
      → normalize to_lower q ≡ ok r
      → (s : SortType) × (resolve_sort q.sort ≡ ok s)
        × (normal_of q s ≡ r)
        × (pos 0 ≤ℤ q.offset)
        × (pos 0 ≤ℤ q.min_bookmark_count)
        × (IsBounded q → q.posted_at_from < q.posted_at_to)
  unfolding normalize
  normalize_inv q r h =
      let (a, h1) = guard-eq-ok (ltb_ℤ q.offset (pos 0)) negative_offset _ h in
      let (b, h2) =
        guard-eq-ok (ltb_ℤ q.min_bookmark_count (pos 0)) negative_min_bookmark_count _ h1 in
      let (s, c, h3) = >>=-eq-ok (resolve_sort q.sort) _ h2 in
      let (d, h4) = guard-eq-ok (is_empty_range q.posted_at_from q.posted_at_to) empty_range _ h3 in
      (
        s,
        c,
        cc h4,
        nonneg_of_test q.offset a,
        nonneg_of_test q.min_bookmark_count b,
        λ both. ordered_of_test q.posted_at_from q.posted_at_to d both.0 both.1,
      )

  -- Normalize succeeds exactly on the acceptable queries.
  pub normalize_iff :
      (q : ListQuery) → ((r : ListQuery) × (normalize to_lower q ≡ ok r)) ↔ IsAcceptable q
  unfolding normalize
  normalize_iff q = (
    (λ (r, h).
        let (s, c, e, o, m, b) = normalize_inv q r h in
        record {
          offset_least = o;
          min_least = m;
          supported = (resolve_sort-IsResolved q.sort c).1;
          ordered = b;
        }),
    (λ v.
        let (s, c) = resolve_sort_total q.sort v.supported in
        (
          normal_of q s,
          rw
              (
                test_of_nonneg q.offset v.offset_least,
                test_of_nonneg q.min_bookmark_count v.min_least,
                c,
                test_of_ordered q.posted_at_from q.posted_at_to v.ordered,
              )
              refl,
        )),
  )

  -- A normalised query keeps the offset, the lower bound, the range and the override, and has a limit
  -- from 1 to its cap, a sort, a trimmed keyword and, sorted, the normal forms of the tag names.
  pub normalize-IsNormal :
      (q r : ListQuery)
      → normalize to_lower q ≡ ok r
      → IsNormal r
        × Perm r.tags (map (normalize_name to_lower) q.tags)
        × (r.offset ≡ q.offset)
        × (r.min_bookmark_count ≡ q.min_bookmark_count)
        × (r.posted_at_from ≡ q.posted_at_from)
        × (r.posted_at_to ≡ q.posted_at_to)
        × (r.max_limit_override ≡ q.max_limit_override)
  unfolding normalize
  normalize-IsNormal q r h =
      let (s, c, e, o, m, b) = normalize_inv q r h in
      let names = map (normalize_name to_lower) q.tags in
      let bounds = clamp_limit_bounds q.limit q.max_limit_override in
      subst
        (λ x.
          IsNormal x
          × Perm x.tags (map (normalize_name to_lower) q.tags)
          × (x.offset ≡ q.offset)
          × (x.min_bookmark_count ≡ q.min_bookmark_count)
          × (x.posted_at_from ≡ q.posted_at_from)
          × (x.posted_at_to ≡ q.posted_at_to)
          × (x.max_limit_override ≡ q.max_limit_override))
        e
        (
          record {
            limit_least = bounds.0;
            limit_most = bounds.1;
            offset_least = o;
            min_least = m;
            resolved = (resolve_sort-IsResolved q.sort c).0;
            ordered = b;
            trimmed = trim_space-Trimmed q.keyword;
            sorted = arranged-IsSorted names;
          },
          arranged-perm names,
          refl,
          refl,
          refl,
          refl,
          refl,
        )

  normal_of_again :
      (q : ListQuery) (s : SortType)
      → All (λ name. normalize_name to_lower name ≡ name) (normal_of q s).tags
      → normal_of (normal_of q s) s ≡ normal_of q s
  normal_of_again q s fixed =
      let names = arranged (map (normalize_name to_lower) q.tags) in
      let same : arranged (map (normalize_name to_lower) names) ≡ names =
        ap arranged (map_fixed (normalize_name to_lower) names fixed)
        ∙ arranged_of_IsSorted names (arranged-IsSorted (map (normalize_name to_lower) q.tags)) in
      λ i. record q {
        tags = same i;
        limit = clamp_limit_idem q.limit q.max_limit_override i;
        sort = s;
        keyword = trim_space_idem q.keyword i;
      }

  -- A query that is normalised already, and whose tag names are their own normal forms, is left as
  -- it is: List and Count, which both normalise, see the same query.
  pub normalize_idem :
      (q r : ListQuery)
      → normalize to_lower q ≡ ok r
      → All (λ name. normalize_name to_lower name ≡ name) r.tags
      → normalize to_lower r ≡ ok r
  unfolding normalize
  normalize_idem q r h fixed =
      let (s, c, e, o, m, b) = normalize_inv q r h in
      subst
        (λ x.
          All (λ name. normalize_name to_lower name ≡ name) x.tags → normalize to_lower x ≡ ok x)
        e
        (λ ok_names.
          rw
            (
              test_of_nonneg q.offset o,
              test_of_nonneg q.min_bookmark_count m,
              resolve_sort_of_IsResolved s (resolve_sort-IsResolved q.sort c).0,
              test_of_ordered q.posted_at_from q.posted_at_to b,
            )
            (ap ok (normal_of_again q s ok_names)))
        fixed
