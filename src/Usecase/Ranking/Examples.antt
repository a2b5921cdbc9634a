-- ===== src/Usecase/Ranking/Examples.antt =====
-- The theorems about the rankings with a table as the cache.
use hateblog_backend.Common.{
  ◌≡◌, ap₂, Bool, true, ◌&&◌, [], &&-true, ℤ, eqb_ℤ, eqb_ℤ_iff, Result, ok,
}
use hateblog_backend.Domain.Entry.{Time}
use hateblog_backend.Pkg.Apptime.{RangeError}
use hateblog_backend.Usecase.Ports.{Cache}
use hateblog_backend.Usecase.Samples.{sample_repo, table}
use hateblog_backend.Usecase.Ranking.{Ranked}
use hateblog_backend.Usecase.Ranking.Coherence.{IsCoherent}

abbrev key_eq : ℤ × ℤ → ℤ × ℤ → Bool
key_eq (a, b) (c, d) = eqb_ℤ a c && eqb_ℤ b d

key_eq_sound : (j k : ℤ × ℤ) → key_eq j k ≡ true → j ≡ k
key_eq_sound (a, b) (c, d) h =
    let (p, q) = &&-true (eqb_ℤ a c) (eqb_ℤ b d) h in
    ap₂ (λ x y. (x, y)) ((eqb_ℤ_iff a c).0 p) ((eqb_ℤ_iff b d).0 q)

abbrev rankings : Cache (ℤ × ℤ) Ranked
rankings = table key_eq key_eq_sound

abbrev whole_year : ℤ → Result RangeError (Time × Time)
whole_year y = ok (0, 100)

empty-IsCoherent : IsCoherent whole_year sample_repo rankings true []
empty-IsCoherent p m r h = cc h
