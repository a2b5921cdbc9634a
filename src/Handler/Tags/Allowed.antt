-- ===== src/Handler/Tags/Allowed.antt =====
-- The periods that the two rankings of tags are asked for.
use hateblog_backend.Common.{
  ◌≡◌, refl, ◌⊎◌, inl, inr, Bool, true, false, not, List, arith, Bool-cases, length, any, ℤ, pos,
  ◌≤ℤ◌, ◌<ℤ◌, eqb_ℤ, Result, ok, err, >>=-eq-ok, guard-eq-ok, Bytes, codes,
}
use hateblog_backend.Usecase.Tags.{TrendingTag, TagRepository, TagsError, get_trending}
use hateblog_backend.Handler.Params.{Query, ParamError, read_query_int}
use hateblog_backend.Handler.Params.Bounds.{read_query_int_bounds}
use hateblog_backend.Handler.Responses.{
  Message, Response, failure, payload, write_json, write_error, error_message,
}
use hateblog_backend.Handler.Tags.{
  HandlerError, hours_not_allowed, TrendingTagsResponse, or_param, allowed_hours, trending_params,
  write_trending, serve_trending, handle_trending_tags,
}

or_param_ok {ℓ} : {A : Type ℓ} (m : Result ParamError A) {a : A} → or_param m ≡ ok a → m ≡ ok a
unfolding or_param
or_param_ok (ok a) h = cc h
or_param_ok (err e) h = cc h

within :
    (r : Query) (key : Bytes) (least most otherwise v : ℤ)
    → pos 0 <ℤ most
    → (least ≤ℤ otherwise) × (otherwise ≤ℤ most)
    → or_param (read_query_int r key least most otherwise) ≡ ok v
    → (least ≤ℤ v) × (v ≤ℤ most)
within r key least most otherwise v bound inside h =
    elim (read_query_int_bounds r key least most otherwise v
      (or_param_ok (read_query_int r key least most otherwise) h)) [
        | inl (_, same) ↦ rw same inside
        | inr (low, high) ↦ (low, high bound)
      ]

-- What the parameters of the trending tags satisfy.
abbrev pub IsTrending : ℤ × ℤ × ℤ → Type 0
IsTrending (hours, min_users, limit) =
    (any (eqb_ℤ hours) allowed_hours ≡ true)
    × (pos 0 ≤ℤ min_users)
    × (min_users ≤ℤ pos 10_000)
    × (pos 1 ≤ℤ limit)
    × (limit ≤ℤ pos 100)

trending_params-IsTrending : (r : Query) (p : ℤ × ℤ × ℤ) → trending_params r ≡ ok p → IsTrending p
unfolding trending_params
trending_params-IsTrending r (hours, min_users, limit) h =
    let (hs, a, h1) =
      >>=-eq-ok (or_param (read_query_int r (codes "hours") (pos 0) (pos 0) (pos 24))) _ h in
    let (allowed, h2) = guard-eq-ok (not (any (eqb_ℤ hs) allowed_hours)) hours_not_allowed _ h1 in
    let (m, b, h3) =
      >>=-eq-ok (or_param (read_query_int r (codes "min_users") (pos 0) (pos 10_000) (pos 5))) _
        h2 in
    let (l, d, h4) =
      >>=-eq-ok (or_param (read_query_int r (codes "limit") (pos 1) (pos 100) (pos 20))) _ h3 in
    let (m1, m2) =
      within r (codes "min_users") (pos 0) (pos 10_000) (pos 5) m (omega arith)
        (omega arith, omega arith) b in
    let (l1, l2) =
      within r (codes "limit") (pos 1) (pos 100) (pos 20) l (omega arith) (omega arith, omega arith)
        d in
    let s1 : hs ≡ hours = cc h4 in
    let s2 : m ≡ min_users = cc h4 in
    let s3 : l ≡ limit = cc h4 in
    (
      rw s1 at (truth_of_not (any (eqb_ℤ hs) allowed_hours) allowed),
      rw s2 at m1,
      rw s2 at m2,
      rw s3 at l1,
      rw s3 at l2,
    )
  where
    truth_of_not : (b : Bool) → not b ≡ false → b ≡ true
    truth_of_not true h = refl
    truth_of_not false h = cc h

module _ (tag_repo : TagRepository) (has_services : Bool) where
  -- The response to accepted parameters, or a failure.
  abbrev pub IsAnswered : Response HandlerError TrendingTagsResponse → Type 0
  IsAnswered out =
      ((hours : ℤ) × (min_users : ℤ) × (limit : ℤ) × (found : List TrendingTag) × IsTrending
          (hours, min_users, limit)
        × (get_trending tag_repo hours min_users limit ≡ ok found)
        × (out.status ≡ 200)
        × (out.body ≡ payload (record { tags = found; hours = hours; total = length found })))
      ⊎ (((out.status ≡ 400) ⊎ (out.status ≡ 500))
          × ((m : Message HandlerError) × (out.body ≡ failure m)))

  write_trending-IsAnswered :
      (hours min_users limit : ℤ)
      → IsTrending (hours, min_users, limit)
      → (m : Result TagsError (List TrendingTag)) → get_trending tag_repo hours min_users limit ≡ m
      → IsAnswered (write_trending tag_repo has_services hours m)
  unfolding write_trending write_error write_json error_message
  write_trending-IsAnswered hours min_users limit b (err e) q = inr (inr refl, (_, refl))
  write_trending-IsAnswered hours min_users limit b (ok found) q =
      inl (hours, min_users, limit, found, b, q, refl, refl)

  serve_trending-IsAnswered :
      (r : Query) (m : Result HandlerError (ℤ × ℤ × ℤ))
      → trending_params r ≡ m
      → IsAnswered (serve_trending tag_repo has_services m)
  unfolding serve_trending write_error write_json error_message
  serve_trending-IsAnswered r (err e) q = inr (inl refl, (_, refl))
  serve_trending-IsAnswered r (ok (hours, min_users, limit)) q =
      write_trending-IsAnswered hours min_users limit
        (trending_params-IsTrending r (hours, min_users, limit) q)
        (get_trending tag_repo hours min_users limit) refl

  -- The trending tags are shown with status 200, with the number of them as the total, where the
  -- service answers and the hours are 6, 12, 24 or 48, the least number of users is from 0 to 10000
  -- and the limit from 1 to 100; every other request fails with 400 or 500.
  pub handle_trending_tags_lem :
      (r : Query) → IsAnswered (handle_trending_tags tag_repo has_services r)
  unfolding handle_trending_tags write_error write_json error_message
  handle_trending_tags_lem r = elim (Bool-cases (not has_services)) [
    | inl none_there ↦ rw none_there (inr (inr refl, (_, refl)))
    | inr there ↦ rw there (serve_trending-IsAnswered r (trending_params r) refl)
  ]
