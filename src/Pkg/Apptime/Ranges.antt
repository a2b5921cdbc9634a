-- ===== src/Pkg/Apptime/Ranges.antt =====
-- The ranges lie end to end, if AddDate and Date normalise as the package time says.
use hateblog_backend.Common.{
  ℕ, zero, suc, ◌+◌, ◌*◌, ◌≡◌, sym, ap, ◌∙◌, ◌≢◌, ◌⊎◌, inl, inr, Bool, not, ◌||◌, arith, ◌==◌,
  if◌then◌else◌, ℤ, pos, ◌-ℤ◌, sub_ℕ, ltb_ℤ, eqb_ℤ, eqb_ℤ_iff, ok, guard-eq-ok,
}
use hateblog_backend.Domain.Entry.{Time}
use hateblog_backend.Pkg.Apptime.{
  week_out_of_range, invalid_week, invalid_month, iso_week_range, month_range, week_start, Calendar,
  year_range, invalid_year,
}

-- AddDate of a midnight is the Date of the sum, Date carries a 13th month into the next year, and
-- days added in two steps are days added in one; for years from 0 on.
pub record Normalises (c : Calendar) : Type 0 where
  pub add_date-date :
      (y m d dy dm dd : ℕ)
      → c.add_date (c.date (pos y) (pos m) (pos d)) (pos dy) (pos dm) (pos dd)
        ≡ c.date (pos (y + dy)) (pos (m + dm)) (pos (d + dd))
  pub date_carry :
      (y d : ℕ) → c.date (pos y) (pos 13) (pos d) ≡ c.date (pos (y + 1)) (pos 1) (pos d)
  pub add_date-add_date :
      (t : Time) (a b : ℕ)
      → c.add_date (c.add_date t (pos 0) (pos 0) (pos a)) (pos 0) (pos 0) (pos b)
        ≡ c.add_date t (pos 0) (pos 0) (pos (a + b))

plus_zero : (y : ℕ) → y + 0 ≡ y
plus_zero y = omega arith

module _ (c : Calendar) (n : Normalises c) where
  year_guard : ℤ → Bool
  year_guard y = ltb_ℤ y (pos 2000) || ltb_ℤ (pos 9999) y

  month_guard : ℤ → Bool
  month_guard m = ltb_ℤ m (pos 1) || ltb_ℤ (pos 12) m

  -- In a calendar that normalises its dates, the ranges of two months in turn lie end to end,
  -- within a year and from December to January.
  pub month_range_adjoins :
      (y m : ℕ) (r s : Time × Time)
      → month_range c (pos y) (pos m) ≡ ok r
      → ((m ≢ 12) × (month_range c (pos y) (pos (m + 1)) ≡ ok s))
        ⊎ ((m ≡ 12) × (month_range c (pos (y + 1)) (pos 1) ≡ ok s))
      → r.1 ≡ s.0
  unfolding month_range month_guard
  month_range_adjoins y m r s h (inl (_, k)) =
      let (_, p) = guard-eq-ok (month_guard (pos m)) (invalid_month (pos m)) _ h in
      let (_, q) = guard-eq-ok (month_guard (pos (m + 1))) (invalid_month (pos (m + 1))) _ k in
      cc (p, q, n.add_date-date y m 1 0 1 0, plus_zero y)
  month_range_adjoins y m r s h (inr (e, k)) =
      let (_, p) = guard-eq-ok (month_guard (pos m)) (invalid_month (pos m)) _ h in
      cc (p, k, e, n.add_date-date y 12 1 0 1 0, plus_zero y, n.date_carry y 1)

  -- In a calendar that normalises its dates, the range of a year runs from the start of its
  -- January to the end of its December.
  pub year_range_months :
      (y : ℕ) (r first last : Time × Time)
      → year_range c (pos y) ≡ ok r
      → month_range c (pos y) (pos 1) ≡ ok first
      → month_range c (pos y) (pos 12) ≡ ok last
      → (r.0 ≡ first.0) × (r.1 ≡ last.1)
  unfolding month_range year_range year_guard
  year_range_months y r first last h f l =
      let (_, p) = guard-eq-ok (year_guard (pos y)) (invalid_year (pos y)) _ h in
      (
        cc (p, f),
        cc (
          p,
          l,
          n.add_date-date y 1 1 1 0 0,
          n.add_date-date y 12 1 0 1 0,
          plus_zero y,
          n.date_carry y 1,
        ),
      )

  -- The days from the first Monday to that of week `w`.
  week_days : (w : ℕ) → sub_ℕ (7 * suc w) (7 + 7 * 0) ≡ pos (7 * w)
  week_days w = ground arith

  week_start-suc :
      (y w : ℕ)
      → c.add_date (week_start c (pos y) (pos (suc w))) (pos 0) (pos 0) (pos 7)
        ≡ week_start c (pos y) (pos (suc w + 1))
  unfolding week_start
  week_start-suc y w =
      let jan4 = c.date (pos y) (pos 1) (pos 4) in
      let weekday = if c.weekday jan4 == 0 then 7 else c.weekday jan4 in
      let monday = c.add_date jan4 (pos 0) (pos 0) (pos 1 -ℤ pos weekday) in
      let plus = c.add_date monday (pos 0) (pos 0) in
      ap (λ d. c.add_date (plus d) (pos 0) (pos 0) (pos 7)) (week_days w)
      ∙ n.add_date-add_date monday (7 * w) 7
      ∙ ap (λ d. plus (pos d)) (omega arith)
      ∙ ap plus (sym (week_days (w + 1)))
      ∙ ap (λ m. week_start c (pos y) (pos m)) (omega arith)

  week_guard : ℤ → Bool
  week_guard w = ltb_ℤ w (pos 1) || ltb_ℤ (pos 53) w

  iso_week_range_inv :
      (y w : ℕ) (r : Time × Time)
      → iso_week_range c (pos y) (pos w) ≡ ok r
      → (r.0 ≡ week_start c (pos y) (pos w))
        × (r.1 ≡ week_start c (pos y) (pos (w + 1)))
        × ((c.iso_week (week_start c (pos y) (pos w))).0 ≡ pos y)
        × ((c.iso_week (week_start c (pos y) (pos w))).1 ≡ pos w)
  unfolding iso_week_range week_guard
  iso_week_range_inv y zero r h = cc h
  iso_week_range_inv y (suc w) r h =
      let start = week_start c (pos y) (pos (suc w)) in
      let got = c.iso_week start in
      let (_, p) = guard-eq-ok (week_guard (pos (suc w))) (invalid_week (pos (suc w))) _ h in
      let (t, q) =
        guard-eq-ok (not (eqb_ℤ got.0 (pos y)) || not (eqb_ℤ got.1 (pos (suc w))))
          (week_out_of_range (pos (suc w)) (pos y)) _ p in
      (
        cc q,
        cc (q, week_start-suc y w),
        ground (arith, eqb_ℤ_iff got.0 (pos y)),
        ground (arith, eqb_ℤ_iff got.1 (pos (suc w))),
      )

  -- In a calendar that normalises its dates, the ranges of two ISO weeks in turn lie end to end,
  -- and each starts on a day of its week.
  pub iso_week_range_adjoins :
      (y w : ℕ) (r s : Time × Time)
      → iso_week_range c (pos y) (pos w) ≡ ok r
      → iso_week_range c (pos y) (pos (w + 1)) ≡ ok s
      → (r.1 ≡ s.0) × (c.iso_week r.0 ≡ (pos y, pos w)) × (c.iso_week s.0 ≡ (pos y, pos (w + 1)))
  iso_week_range_adjoins y w r s h k =
      let (a, b, d, e) = iso_week_range_inv y w r h in
      let (f, _, g, m) = iso_week_range_inv y (w + 1) s k in
      (b ∙ sym f, ap c.iso_week a ∙ pair d e, ap c.iso_week f ∙ pair g m)
    where
      pair : {p : ℤ × ℤ} {a b : ℤ} → p.0 ≡ a → p.1 ≡ b → p ≡ (a, b)
      pair u v = λ i. (u i, v i)
