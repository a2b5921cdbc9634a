-- ===== src/Usecase/Ranking/Coherence.antt =====
-- The cache of the rankings is transparent: with a cache that holds only answers of the repository,
-- the methods answer as they do without one, and keep the cache so.
use hateblog_backend.Common.{
  ℕ, suc, ◌+◌, ◌≡◌, refl, sym, ap, ap₂, ◌∙◌, subst, ◌⊎◌, inl, inr, Bool, true, false, ◌&&◌, Option,
  none, some, List, arith, ltb, leb, if◌then◌else◌, &&-true, Bool-cases, length, take, drop,
  take_all, drop_all, ℤ, pos, ◌≤ℤ◌, eqb_ℤ, eqb_ℤ_iff, Result, ok, err, >>=-eq-ok,
}
use hateblog_backend.Domain.Entry.{Entry, Time}
use hateblog_backend.Pkg.Apptime.{RangeError}
use hateblog_backend.Usecase.Ports.{is_hit, Fault, EntryRepository, IsLimited, Cache, IsCache}
use hateblog_backend.Usecase.Ranking.{
  Ranked, RankingError, infra, max_entries, slice_with_offset_and_limit, ranking_query, or_infra,
  or_range, list_entries_and_count, given, given_limit, fetch, store, answer_lookup,
  with_cache_status,
}

-- The slice is `limit` entries from `offset` on, for an offset and a limit that are not negative; a
-- limit of 0 stands for no limit.
pub slice-take-drop {ℓ} :
    {A : Type ℓ} (es : List A) (offset limit : ℕ)
    → slice_with_offset_and_limit es (pos offset) (pos (suc limit))
      ≡ take (suc limit) (drop offset es)
unfolding slice_with_offset_and_limit
slice-take-drop es offset limit =
    let plain : ltb (offset + 0) 0 ≡ false = ground arith in
    let limited : leb (suc limit + 0) 0 ≡ false = ground arith in
    rw (plain, limited)
      (elim (Bool-cases (leb (length es + 0) (offset + 0))) [
        | inl beyond ↦ rw (beyond, drop_all offset es (ground arith)) refl
        | inr within ↦
            rw within (elim (Bool-cases (leb (length (drop offset es) + 0) (suc limit + 0))) [
              | inl short ↦ rw short (sym (take_all (suc limit) (drop offset es) (ground arith)))
              | inr long ↦ rw long refl
            ])
      ])

slice_first {ℓ} :
    {A : Type ℓ} (es : List A)
    → pos (length es) ≤ℤ max_entries
    → slice_with_offset_and_limit es (pos 0) max_entries ≡ es
slice_first es h = slice-take-drop es 0 99 ∙ take_all 100 es (omega arith)

or_infra_ok {ℓ} : {A : Type ℓ} (m : Result Fault A) {a : A} → or_infra m ≡ ok a → m ≡ ok a
unfolding or_infra
or_infra_ok (ok a) h = cc
or_infra_ok (err f) h = cc

-- A result with the cache status behind it.
abbrev pub with_status : Bool → Result RankingError Ranked → Result RankingError (Ranked × Bool)
with_status hit (ok r) = ok (r, hit)
with_status hit (err e) = err e

module _ {P : Type 0} (period_range : P → Result RangeError (Time × Time)) (repo : EntryRepository)
    (cache : Cache (P × ℤ) Ranked) (enabled : Bool) where
  -- What the repository answers, with no cache.
  abbrev pub answer : P → ℤ → ℤ → ℤ → Result RankingError Ranked
  answer = fetch period_range repo cache enabled

  -- Every value in the cache is the answer for the first page of 100.
  abbrev pub IsCoherent : cache.Store → Type 0
  IsCoherent st =
      (p : P) (m : ℤ) (r : Ranked)
      → cache.get st (p, m) ≡ ok (some r)
      → answer p max_entries (pos 0) m ≡ ok r

  answer_le_limit :
      IsLimited repo
      → (p : P) (m : ℤ) (r : Ranked) → answer p max_entries (pos 0) m ≡ ok r
      → pos (length r.entries) ≤ℤ max_entries
  unfolding fetch list_entries_and_count
  answer_le_limit limited p m r h =
      let (span, _, h1) = >>=-eq-ok (or_range (period_range p)) _ h in
      let (es, a, h2) =
        >>=-eq-ok (or_infra (repo.list (ranking_query span (pos 0) max_entries m))) _ h1 in
      let (n, b, h3) =
        >>=-eq-ok (or_infra (repo.count (ranking_query span (pos 0) max_entries m))) _ h2 in
      let bound =
        limited.list_le_limit (ranking_query span (pos 0) max_entries m) es (omega arith)
          (or_infra_ok (repo.list (ranking_query span (pos 0) max_entries m)) a) in
      let same : record_of es n ≡ r = cc h3 in
      subst {A = Ranked} (λ x. pos (length x.entries) ≤ℤ max_entries) same bound
    where
      record_of : List Entry → ℤ → Ranked
      record_of es n = record { entries = es; total = n }

  store-IsCoherent :
      IsCache cache
      → (st : cache.Store) (p : P) (m : ℤ) (r : Ranked) → answer p max_entries (pos 0) m ≡ ok r
      → IsCoherent st
      → IsCoherent (cache.set st (p, m) r).0
  store-IsCoherent law st p m r e coh q n w found = elim (law.get-set st (p, m) r (q, n) w found) [
    | inl (same, w_is) ↦ rw (ap (λ k. k.0) same, ap (λ k. k.1) same, w_is) e
    | inr before ↦ coh q n w before
  ]

  answer_lookup-IsCoherent :
      IsCache cache
      → (found : Result Fault (Option Ranked)) (use_cache : Bool) (p : P) (l o m : ℤ)
        (st : cache.Store)
      → (use_cache ≡ true → (l ≡ max_entries) × (o ≡ pos 0))
      → IsCoherent st
      → IsCoherent (answer_lookup period_range repo cache enabled found use_cache p l o m st).1
  unfolding answer_lookup store
  answer_lookup-IsCoherent law (err f) use_cache p l o m st first coh = coh
  answer_lookup-IsCoherent law (ok (some r)) use_cache p l o m st first coh = coh
  answer_lookup-IsCoherent law (ok none) use_cache p l o m st first coh =
      go (answer p l o m) refl use_cache first
    where
      go :
          (a : Result RankingError Ranked)
          → answer p l o m ≡ a
          → (u : Bool) → (u ≡ true → (l ≡ max_entries) × (o ≡ pos 0))
          → IsCoherent (store period_range repo cache enabled u (p, m) a st).1
      go (err e) q u first = coh
      go (ok r) q true first =
          let (l_is, o_is) = first refl in
          store-IsCoherent law st p m r (ap₂ (λ x y. answer p x y m) (sym l_is) (sym o_is) ∙ q) coh
      go (ok r) q false first = coh

  first_page :
      (l o : ℤ)
      → (eqb_ℤ l max_entries && (eqb_ℤ o (pos 0) && enabled)) ≡ true
      → (l ≡ max_entries) × (o ≡ pos 0)
  first_page l o h =
      let (a, b) = &&-true (eqb_ℤ l max_entries) _ h in
      let (d, _) = &&-true (eqb_ℤ o (pos 0)) enabled b in
      ((eqb_ℤ_iff l max_entries).0 a, (eqb_ℤ_iff o (pos 0)).0 d)

  -- What the lookup gives: nothing for another page than the first of 100.
  abbrev pub lookup : P → ℤ → ℤ → ℤ → cache.Store → Result Fault (Option Ranked)
  lookup p l o m st =
      if eqb_ℤ l max_entries && (eqb_ℤ o (pos 0) && enabled) then cache.get st (p, m) else ok none

  -- The result for a lookup: its error, or the repository's answer with the cache status.
  abbrev pub served :
      Result Fault (Option Ranked)
      → Result RankingError Ranked
      → Result RankingError (Ranked × Bool)
  served (err f) direct = err (infra f)
  served (ok o) direct = with_status (is_hit o) direct

  -- The result is the repository's answer, unless the lookup of the cache fails.
  abbrev pub IsAnswered :
      Result RankingError (Ranked × Bool)
      → Result Fault (Option Ranked)
      → Result RankingError Ranked
      → Type 0
  IsAnswered result lookup direct =
      ((hit : Bool) × (result ≡ with_status hit direct))
      ⊎ ((f : Fault) × (lookup ≡ err f) × (result ≡ err (infra f)))

  store-answer :
      (use_cache : Bool) (key : P × ℤ) (a : Result RankingError Ranked) (st : cache.Store)
      → (store period_range repo cache enabled use_cache key a st).0 ≡ with_status false a
  unfolding store
  store-answer use_cache key (ok r) st = refl
  store-answer use_cache key (err e) st = refl

  answer_lookup-served :
      IsLimited repo
      → (found : Result Fault (Option Ranked)) (use_cache : Bool) (p : P) (l o m : ℤ)
        (st : cache.Store)
      → ((r : Ranked)
          → found ≡ ok (some r)
          → (l ≡ max_entries) × (o ≡ pos 0) × (answer p max_entries (pos 0) m ≡ ok r))
      → (answer_lookup period_range repo cache enabled found use_cache p l o m st).0
        ≡ served found (answer p l o m)
  unfolding answer_lookup
  answer_lookup-served limited (err f) use_cache p l o m st hit = refl
  answer_lookup-served limited (ok (some r)) use_cache p l o m st hit =
      let (l_is, o_is, e) = hit r refl in
      rw (l_is, o_is, e, slice_first r.entries (answer_le_limit limited p m r e)) refl
  answer_lookup-served limited (ok none) use_cache p l o m st hit =
      store-answer use_cache (p, m) (answer p l o m) st

  answer_lookup-IsAnswered :
      IsLimited repo
      → (found : Result Fault (Option Ranked)) (use_cache : Bool) (p : P) (l o m : ℤ)
        (st : cache.Store)
      → ((r : Ranked)
          → found ≡ ok (some r)
          → (l ≡ max_entries) × (o ≡ pos 0) × (answer p max_entries (pos 0) m ≡ ok r))
      → IsAnswered
          (answer_lookup period_range repo cache enabled found use_cache p l o m st).0
          found
          (answer p l o m)
  unfolding answer_lookup
  answer_lookup-IsAnswered limited (err f) use_cache p l o m st hit = inr (f, refl, refl)
  answer_lookup-IsAnswered limited (ok (some r)) use_cache p l o m st hit =
      let (l_is, o_is, e) = hit r refl in
      inl (true, rw (l_is, o_is, e, slice_first r.entries (answer_le_limit limited p m r e)) refl)
  answer_lookup-IsAnswered limited (ok none) use_cache p l o m st hit =
      inl (false, store-answer use_cache (p, m) (answer p l o m) st)

  -- For a repository whose lists keep to the limit of a query, and a cache that finds only what
  -- was set: with a cache that holds only first pages as the repository answers them, the method
  -- gives the repository's answer for the page asked for, hit or miss, or the error of a failed
  -- lookup; and the cache still holds only such pages.
  pub with_cache_status-answer :
      IsLimited repo
      → IsCache cache
      → (p : P) (limit offset min_users : ℤ) (st : cache.Store) → IsCoherent st
      → let out = with_cache_status period_range repo cache enabled p limit offset min_users st in
        IsAnswered out.0
          (cache.get st (p, given min_users))
          (answer p (given_limit limit) (given offset) (given min_users))
        × IsCoherent out.1
  unfolding with_cache_status
  with_cache_status-answer limited law p limit offset m st coh =
      go (eqb_ℤ (given_limit limit) max_entries && (eqb_ℤ (given offset) (pos 0) && enabled)) refl
    where
      go :
          (u : Bool)
          → (eqb_ℤ (given_limit limit) max_entries && (eqb_ℤ (given offset) (pos 0) && enabled)) ≡ u
          → let out =
              answer_lookup period_range repo cache enabled
                (if u then cache.get st (p, given m) else ok none)
                u
                p
                (given_limit limit)
                (given offset)
                (given m)
                st in
            IsAnswered out.0
              (cache.get st (p, given m))
              (answer p (given_limit limit) (given offset) (given m))
            × IsCoherent out.1
      go true e =
          let (l_is, o_is) = first_page (given_limit limit) (given offset) e in
          (
            answer_lookup-IsAnswered limited (cache.get st (p, given m)) true p (given_limit limit)
                (given offset) (given m) st (λ r found. (l_is, o_is, coh p (given m) r found)),
            answer_lookup-IsCoherent law (cache.get st (p, given m)) true p (given_limit limit)
                (given offset) (given m) st (λ _. (l_is, o_is)) coh,
          )
      go false e = (
        inl (
          false,
          unfold answer_lookup in
              (store-answer false (p, given m)
                (answer p (given_limit limit) (given offset) (given m)) st),
        ),
        answer_lookup-IsCoherent law (ok none) false p (given_limit limit) (given offset) (given m)
            st (λ h. cc) coh,
      )

  -- The same with the cache status: a method that looks into the cache, for a first page of 100,
  -- gives the error of a failed lookup, and else the repository's answer, a hit exactly if the
  -- lookup finds something.
  pub with_cache_status-served :
      IsLimited repo
      → (p : P) (limit offset min_users : ℤ) (st : cache.Store) → IsCoherent st
      → (with_cache_status period_range repo cache enabled p limit offset min_users st).0
        ≡ served
            (lookup p (given_limit limit) (given offset) (given min_users) st)
            (answer p (given_limit limit) (given offset) (given min_users))
  unfolding with_cache_status
  with_cache_status-served limited p limit offset m st coh =
      let l = given_limit limit in
      let o = given offset in
      answer_lookup-served limited (lookup p l o (given m) st)
        (eqb_ℤ l max_entries && (eqb_ℤ o (pos 0) && enabled)) p l o (given m) st (found_at l o)
    where
      nothing : {r : Ranked} → ◌≡◌ {A = Result Fault (Option Ranked)} (ok none) (ok (some r)) → ⊥
      nothing h = cc h

      found_at :
          (l o : ℤ) (r : Ranked)
          → lookup p l o (given m) st ≡ ok (some r)
          → (l ≡ max_entries) × (o ≡ pos 0) × (answer p max_entries (pos 0) (given m) ≡ ok r)
      found_at l o r found =
          elim (Bool-cases (eqb_ℤ l max_entries && (eqb_ℤ o (pos 0) && enabled))) [
            | inl used ↦
                let (l_is, o_is) = first_page l o used in
                (l_is, o_is, coh p (given m) r (rw used at found))
            | inr unused ↦ absurd (nothing (rw unused at found))
          ]
