-- ===== src/Usecase/Samples.antt =====
-- A sample repository and a table as a cache, for the tests of the use cases.
use hateblog_backend.Common.{
  ℕ, ◌≤◌, ◌≡◌, sym, subst, inl, inr, Bool, true, false, Option, none, some, List, [], ◌∷◌, arith,
  if◌then◌else◌, Bool-cases, length, take, length-take, ℤ, pos, pos_part, ◌≤ℤ◌, ◌<ℤ◌, Result, ok,
  codes,
}
use hateblog_backend.Domain.Entry.{Entry}
use hateblog_backend.Usecase.Ports.{Fault, EntryRepository, IsLimited, Cache, IsCache}

abbrev pub sample_entry : ℕ → ℕ → Entry
sample_entry users created = record {
  id = users;
  url = codes "https://example.com";
  title = codes "title";
  excerpt = [];
  subject = [];
  bookmark_count = pos users;
  posted_at = 7;
  tags = [];
  created_at = created;
  updated_at = 9;
}

abbrev pub sample_entries : List Entry
sample_entries = sample_entry 12 5 ∷ sample_entry 3 8 ∷ []

abbrev pub sample_repo : EntryRepository
sample_repo = record {
  list = λ q. ok (take (pos_part q.limit) sample_entries);
  count = λ q. ok (pos 2);
}

least_pos_part : (a : ℤ) (n : ℕ) → pos 0 <ℤ a → n ≤ pos_part a → pos n ≤ℤ a
least_pos_part a n h k = ground arith

ok-inj {ℓ} : {A : Type ℓ} {a b : A} → ◌≡◌ {A = Result Fault A} (ok a) (ok b) → a ≡ b
ok-inj h = cc h

pub sample_repo-IsLimited : IsLimited sample_repo
sample_repo-IsLimited = record {
  list_le_limit = λ q es h e.
      subst {A = List Entry} (λ x. pos (length x) ≤ℤ q.limit) (ok-inj e)
        (least_pos_part q.limit (length (take (pos_part q.limit) sample_entries)) h
          (omega (arith, length-take (pos_part q.limit) sample_entries)));
}

-- A cache that keeps every value.
module _ {K V : Type 0} (eq : K → K → Bool) (eq-sound : (j k : K) → eq j k ≡ true → j ≡ k) where
  abbrev pub lookup : List (K × V) → K → Option V
  lookup [] j = none
  lookup ((k, v) ∷ st) j = if eq j k then some v else lookup st j

  abbrev pub table : Cache K V
  table = record {
    Store = List (K × V);
    get = λ st j. ok (lookup st j);
    set = λ st k v. ((k, v) ∷ st, ok tt);
  }

  pub table-IsCache : IsCache table
  table-IsCache = record {
    get-set = λ st k v j w h. elim (Bool-cases (eq j k)) [
      | inl same ↦ inl (eq-sound j k same, sym (hit st k v j w same h))
      | inr other ↦ inr (miss st k v j w other h)
    ];
  }
    where
      hit :
          (st : List (K × V)) (k : K) (v : V) (j : K) (w : V)
          → eq j k ≡ true
          → ◌≡◌ {A = Result Fault (Option V)}
              (ok (if eq j k then some v else lookup st j))
              (ok (some w))
          → v ≡ w
      hit st k v j w same h = cc (h, same)

      miss :
          (st : List (K × V)) (k : K) (v : V) (j : K) (w : V)
          → eq j k ≡ false
          → ◌≡◌ {A = Result Fault (Option V)}
              (ok (if eq j k then some v else lookup st j))
              (ok (some w))
          → ◌≡◌ {A = Result Fault (Option V)} (ok (lookup st j)) (ok (some w))
      miss st k v j w other h = cc (h, other)
