-- ===== src/Handler/Params/Bounds.antt =====
-- The bounds of what the handlers hand on, which the services rely on.
use hateblog_backend.Common.{
  ℕ, zero, suc, ◌+◌, ◌<◌, ◌≡◌, refl, ap₂, ◌∙◌, subst, ◌⊎◌, inl, inr, Bool, false, not, ◌||◌, Option,
  none, some, List, [], ◌∷◌, arith, if◌then◌else◌, length, take, drop, ℤ, pos, negsuc, ◌≤ℤ◌, ◌<ℤ◌,
  ltb_ℤ, half64, Result, ok, err, >>=-eq-ok, guard-eq-ok, Bytes, codes, is_empty,
}
use hateblog_backend.Domain.ListQuery.{max_limit}
use hateblog_backend.Usecase.Entries.{DayListParams, paginate}
use hateblog_backend.Usecase.Entries.Paging.{paginate_total}
use hateblog_backend.Handler.Params.{
  Query, ParamError, is_required, not_a_date, not_an_integer, invalid_limit, atoi, in_range,
  parse_int, read_query_int, day_limit, day_number, default_min_users, negative_offset,
  negative_min_users, is_valid_date, build_day_list_params,
}

in_range_bounds :
    (name : Bytes) (least most v : ℤ) {out : ℤ}
    → in_range name least most v ≡ ok out
    → (least ≤ℤ out) × (pos 0 <ℤ most → out ≤ℤ most)
unfolding in_range
in_range_bounds name least most v h = ground arith

parse_int_bounds :
    (name value : Bytes) (least most : ℤ) {v : ℤ}
    → parse_int name value least most ≡ ok v
    → (least ≤ℤ v) × (pos 0 <ℤ most → v ≤ℤ most)
unfolding parse_int
parse_int_bounds name value least most {v} h = go (atoi value) h
  where
    parsed : Option ℤ → Result ParamError ℤ
    parsed o = elim o [ none ↦ err (not_an_integer name) | some n ↦ in_range name least most n ]

    go : (o : Option ℤ) → parsed o ≡ ok v → (least ≤ℤ v) × (pos 0 <ℤ most → v ≤ℤ most)
    go none e = cc e
    go (some n) e = in_range_bounds name least most n e

-- A number read from the query lies between the two bounds, where an upper bound of 0 stands for
-- none, or the query does not have it and it is the default.
pub read_query_int_bounds :
    (r : Query) (key : Bytes) (least most otherwise v : ℤ)
    → read_query_int r key least most otherwise ≡ ok v
    → ((r key ≡ []) × (v ≡ otherwise)) ⊎ ((least ≤ℤ v) × (pos 0 <ℤ most → v ≤ℤ most))
unfolding read_query_int
read_query_int_bounds r key least most otherwise v h = go (r key) h
  where
    go :
        (raw : Bytes)
        → (if is_empty raw then ok otherwise else parse_int key raw least most) ≡ ok v
        → ((raw ≡ []) × (v ≡ otherwise)) ⊎ ((least ≤ℤ v) × (pos 0 <ℤ most → v ≤ℤ most))
    go [] e = inl (refl, cc e)
    go (c ∷ s) e = inr (parse_int_bounds key (c ∷ s) least most e)

limit_checked : ℤ → Result ParamError ℤ
limit_checked n =
    if ltb_ℤ n (pos 1) || ltb_ℤ max_limit n then err ParamError.limit_out_of_range else ok n

limit_checked_bounds : (n : ℤ) {v : ℤ} → limit_checked n ≡ ok v → (pos 1 ≤ℤ v) × (v ≤ℤ max_limit)
unfolding limit_checked
limit_checked_bounds n h = ground arith

day_limit_bounds : (raw : Bytes) {v : ℤ} → day_limit raw ≡ ok v → (pos 1 ≤ℤ v) × (v ≤ℤ max_limit)
unfolding day_limit limit_checked
day_limit_bounds [] h = ground arith
day_limit_bounds (c ∷ s) {v} h = go (atoi (c ∷ s)) h
  where
    go :
        (o : Option ℤ)
        → (elim o as (λ _. Result ParamError ℤ) [
          | none ↦ err invalid_limit
          | some n ↦ limit_checked n
        ])
          ≡ ok v
        → (pos 1 ≤ℤ v) × (v ≤ℤ max_limit)
    go none e = cc e
    go (some n) e = limit_checked_bounds n e

at_least_checked : ParamError → ℤ → Result ParamError ℤ
at_least_checked refusal n = if ltb_ℤ n (pos 0) then err refusal else ok n

at_least_checked_bound :
    (refusal : ParamError) (n : ℤ) {v : ℤ} → at_least_checked refusal n ≡ ok v → pos 0 ≤ℤ v
unfolding at_least_checked
at_least_checked_bound refusal n h = ground arith

day_number_bound :
    (raw : Bytes) (otherwise : ℕ) (refusal : ParamError) {v : ℤ}
    → day_number raw (pos otherwise) refusal ≡ ok v
    → pos 0 ≤ℤ v
unfolding day_number at_least_checked
day_number_bound [] otherwise refusal h = ground arith
day_number_bound (c ∷ s) otherwise refusal {v} h = go (atoi (c ∷ s)) h
  where
    go :
        (o : Option ℤ)
        → (elim o as (λ _. Result ParamError ℤ) [
          | none ↦ err refusal
          | some n ↦ at_least_checked refusal n
        ])
          ≡ ok v
        → pos 0 ≤ℤ v
    go none e = cc e
    go (some n) e = at_least_checked_bound refusal n e

-- What the handler of the entries of a day hands on.
pub record IsBounded (p : DayListParams) : Type 0 where
  pub dated : length p.date ≡ 8
  pub limit_least : pos 1 ≤ℤ p.limit
  pub limit_most : p.limit ≤ℤ max_limit
  pub offset_least : pos 0 ≤ℤ p.offset
  pub min_least : pos 0 ≤ℤ p.min_bookmark_count

module _ (parses_date : Bytes → Bool) where
  is_valid_date-length : (s : Bytes) → not (is_valid_date parses_date s) ≡ false → length s ≡ 8
  unfolding is_valid_date
  is_valid_date-length s h = ground arith

  abbrev params_of : Bytes → ℤ → ℤ → ℤ → DayListParams
  params_of date limit offset min_users = record {
    date = date;
    min_bookmark_count = min_users;
    offset = offset;
    limit = limit;
  }

  -- The parameters that the handler of the entries of a day accepts have a date of eight bytes, a
  -- limit from 1 to 1000, and an offset and a least number of users that are not negative.
  pub build_day_list_params-IsBounded :
      (r : Query) (p : DayListParams) → build_day_list_params parses_date r ≡ ok p → IsBounded p
  unfolding build_day_list_params
  build_day_list_params-IsBounded r p h =
      let date = r (codes "date") in
      let (_, h1) = guard-eq-ok (is_empty date) (is_required (codes "date")) _ h in
      let (valid, h2) = guard-eq-ok (not (is_valid_date parses_date date)) not_a_date _ h1 in
      let (l, a, h3) = >>=-eq-ok (day_limit (r (codes "limit"))) _ h2 in
      let (o, b, h4) = >>=-eq-ok (day_number (r (codes "offset")) (pos 0) negative_offset) _ h3 in
      let (m, d, h5) =
        >>=-eq-ok (day_number (r (codes "min_users")) default_min_users negative_min_users) _ h4 in
      let (low, high) = day_limit_bounds (r (codes "limit")) a in
      let same : params_of date l o m ≡ p = cc h5 in
      subst {A = DayListParams} IsBounded same (record {
        dated = is_valid_date-length date valid;
        limit_least = low;
        limit_most = high;
        offset_least = day_number_bound (r (codes "offset")) 0 negative_offset b;
        min_least = day_number_bound (r (codes "min_users")) 5 negative_min_users d;
      })

  least_pos : (n : ℤ) → pos 0 ≤ℤ n → (k : ℕ) × (n ≡ pos k)
  least_pos (pos k) h = (k, refl)
  least_pos (negsuc k) h = absurd (ground arith)

  least_suc : (n : ℤ) → pos 1 ≤ℤ n → (k : ℕ) × (n ≡ pos (suc k))
  least_suc (pos zero) h = absurd (ground arith)
  least_suc (pos (suc k)) h = (k, refl)
  least_suc (negsuc k) h = absurd (ground arith)

  -- For parameters that the handler accepts, the service has a page of the entries, from the offset
  -- on and as long as the limit: its slice never panics, as long as the list and 1000 entries more
  -- fit 64 bits.
  pub build_day_list_params-paginate {ℓ} :
      {A : Type ℓ} (r : Query) (p : DayListParams) (es : List A)
      → build_day_list_params parses_date r ≡ ok p
      → length es + 1000 < half64
      → (offset : ℕ) × (limit : ℕ) × (p.offset ≡ pos offset)
        × (p.limit ≡ pos (suc limit))
        × (paginate es p.offset p.limit ≡ some (take (suc limit) (drop offset es)))
  build_day_list_params-paginate r p es h fits =
      let v = build_day_list_params-IsBounded r p h in
      let (o, e) = least_pos p.offset v.offset_least in
      let (l, d) = least_suc p.limit v.limit_least in
      (o, l, e, d, ap₂ (paginate es) e d ∙ paginate_total es o l (room p.limit l d v.limit_most))
    where
      room : (n : ℤ) (l : ℕ) → n ≡ pos (suc l) → n ≤ℤ max_limit → length es + suc l < half64
      room n l d most = ground arith
