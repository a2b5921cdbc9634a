-- ===== src/Batch/Migrator/Complete.antt =====
-- The batches together do what one pass over all bookmarks does.
use hateblog_backend.Common.{
  ℕ, zero, suc, ◌*◌, ◌<◌, ◌≡◌, refl, sym, ap, ◌∙◌, subst, ◌⊎◌, inl, inr, true, false, ◌||◌, Option,
  none, some, List, [], ◌∷◌, ◌++◌, map, arith, if◌then◌else◌, Bool-cases, Option-cases, length,
  take, drop, keep, take-append-drop, length-take, length-drop, take_split, length-keep-le, ℤ,
  ltb_ℤ, Result, ok, err, Bytes, is_empty, is_empty_cases,
}
use hateblog_backend.Usecase.Ports.{Fault}
use hateblog_backend.Batch.Migrator.Rows.{
  has_id, BookmarkRow, Source, EntryRow, Target, has_entry, entry_of,
}
use hateblog_backend.Batch.Migrator.Order.{after, Ascending, after-last_id}
use hateblog_backend.Batch.Migrator.Tags.{MigrateError}
use hateblog_backend.Batch.Migrator.Tags.Found.{ensure_tags_found}
use hateblog_backend.Batch.Migrator.{
  fetch_keywords, broken, Inserted, RunError, Stats, batch_size, fetch_bookmarks_batch, last_id,
  insert_bookmarks, migrate_keyphrases, migrate_batch, migrate_from, migrate_batches,
}

take_empty {ℓ} : {A : Type ℓ} (n : ℕ) (xs : List A) → 0 < n → take n xs ≡ [] → xs ≡ []
take_empty zero xs positive h = absurd (omega arith)
take_empty (suc n) [] positive h = refl
take_empty (suc n) (x ∷ xs) positive h = cc

filled_length {ℓ} : {A : Type ℓ} (xs : List A) → is_empty xs ≡ false → 0 < length xs
filled_length [] h = absurd (ground arith)
filled_length (x ∷ xs) h = omega arith

last_id-append :
    (d : ℤ) (xs ys : List BookmarkRow) → last_id d (xs ++ ys) ≡ last_id (last_id d xs) ys
unfolding last_id
last_id-append d [] ys = refl
last_id-append d (b ∷ xs) ys = last_id-append b.id xs ys

drop_fewer {ℓ} :
    {A : Type ℓ} (n : ℕ) (xs : List A) (m : ℕ)
    → 0 < length (take n xs)
    → length xs < suc m
    → length (drop n xs) < m
drop_fewer n xs m some_of h = omega (arith, length-take n xs, length-drop n xs)

abbrev HasEntries : List EntryRow → Result MigrateError (Target × Stats) → Type 0
HasEntries entries (ok (t, stats)) = t.entries ≡ entries
HasEntries entries (err e) = true ≡ false

HasEntries-ok :
    (entries : List EntryRow) (r : Result MigrateError (Target × Stats))
    → HasEntries entries r
    → (t : Target) × (stats : Stats) × (r ≡ ok (t, stats)) × (t.entries ≡ entries)
HasEntries-ok entries (ok (t, stats)) h = (t, stats, refl, h)
HasEntries-ok entries (err e) h = absurd (ground (arith, h))

module _ (to_lower : Bytes → Bytes) (entry_uuid : ℤ → Bytes) where
  -- One pass: each bookmark that has a title and a link becomes an entry, if none has its URL yet.
  unfoldable pub insert_all : List BookmarkRow → List EntryRow → List EntryRow
  insert_all [] entries = entries
  insert_all (b ∷ bs) entries =
      let same = insert_all bs entries in
      elim (entry_of to_lower entry_uuid b) [
        | none ↦ same
        | some e ↦
            let grown = insert_all bs (entries ++ e ∷ []) in
            if has_entry entries e.url then same else grown
      ]

  insert_all-append :
      (bs cs : List BookmarkRow) (entries : List EntryRow)
      → insert_all (bs ++ cs) entries ≡ insert_all cs (insert_all bs entries)
  unfolding insert_all
  insert_all-append [] cs entries = refl
  insert_all-append (b ∷ bs) cs entries = elim (Option-cases (entry_of to_lower entry_uuid b)) [
    | inl e ↦ rw (insert_all, e) (insert_all-append bs cs entries)
    | inr (x, e) ↦ elim (Bool-cases (has_entry entries x.url)) [
      | inl old ↦ rw (insert_all, e, old) (insert_all-append bs cs entries)
      | inr new ↦ rw (insert_all, e, new) (insert_all-append bs cs (entries ++ x ∷ []))
    ]
  ]

  entries-insert_bookmarks :
      (bs : List BookmarkRow) (entries : List EntryRow)
      → (insert_bookmarks to_lower entry_uuid bs entries).entries ≡ insert_all bs entries
  unfolding insert_all insert_bookmarks
  entries-insert_bookmarks [] entries = refl
  entries-insert_bookmarks (b ∷ bs) entries = elim (Option-cases (entry_of to_lower entry_uuid b)) [
    | inl e ↦ rw (insert_bookmarks, e, insert_all) (entries-insert_bookmarks bs entries)
    | inr (x, e) ↦ elim (Bool-cases (has_entry entries x.url)) [
      | inl old ↦ rw (insert_bookmarks, e, old, insert_all) (entries-insert_bookmarks bs entries)
      | inr new ↦
          rw (insert_bookmarks, e, new, insert_all)
            (entries-insert_bookmarks bs (entries ++ x ∷ []))
    ]
  ]

module _ (to_lower : Bytes → Bytes) (entry_uuid : ℤ → Bytes) (tag_uuid : Bytes → Bytes) where
  migrate_keyphrases-HasEntries :
      (source : Source) (target : Target) (new : Inserted)
      → HasEntries new.entries (migrate_keyphrases to_lower entry_uuid tag_uuid source target new)
  unfolding migrate_keyphrases
  migrate_keyphrases-HasEntries source target new =
      let ids = map (λ p. p.0) new.entry_ids in
      let phrases = keep (λ k. has_id ids k.bookmark_id) source.keyphrases in
      let keywords = (fetch_keywords (map (λ k. k.keyword_id) phrases) source.keywords).0 in
      elim (Bool-cases (is_empty ids || is_empty phrases)) [
        | inl no_phrases ↦ rw (migrate_keyphrases, no_phrases) refl
        | inr phrases_given ↦
            let (linked, n, grown, run, result, names) =
              ensure_tags_found to_lower tag_uuid keywords target.tags in
            rw (migrate_keyphrases, phrases_given, run) refl
      ]

  -- A batch is always migrated, as far as the databases work.
  migrate_batch_total :
      (source : Source) (target : Target) (bs : List BookmarkRow)
      → (t : Target) × (stats : Stats) × (migrate_batch to_lower entry_uuid tag_uuid source target
            bs
          ≡ ok (t, stats))
        × (t.entries ≡ insert_all to_lower entry_uuid bs target.entries)
  unfolding migrate_batch
  migrate_batch_total source target bs =
      let new = insert_bookmarks to_lower entry_uuid bs target.entries in
      let (t, stats, run, same) =
        HasEntries-ok new.entries
          (migrate_keyphrases to_lower entry_uuid tag_uuid source target new)
          (migrate_keyphrases-HasEntries source target new) in
      (t, stats, run, same ∙ entries-insert_bookmarks to_lower entry_uuid bs target.entries)

  -- How a run may end: no round fails and all bookmarks of a list are migrated, or a database failed
  -- in the round after some batches, and these are migrated.
  abbrev IsEnd :
      (ℤ → Option Fault) → ℤ → List BookmarkRow → Target → Target → Option RunError → Type 0
  IsEnd failure last bs target t e =
      ((e ≡ none)
        × ((k : ℕ) → failure (last_id last (take (k * batch_size) bs)) ≡ none)
        × (t.entries ≡ insert_all to_lower entry_uuid bs target.entries))
      ⊎ ((f : Fault) × (k : ℕ) × (e ≡ some (broken f))
          × (failure (last_id last (take (k * batch_size) bs)) ≡ some f)
          × (t.entries ≡ insert_all to_lower entry_uuid (take (k * batch_size) bs) target.entries))

  -- The bookmarks of the first batch and of the next ones.
  take_batches :
      (k : ℕ) (bs : List BookmarkRow)
      → take (suc k * batch_size) bs
        ≡ take batch_size bs ++ take (k * batch_size) (drop batch_size bs)
  take_batches k bs = take_split (suc k * batch_size) batch_size (k * batch_size) bs (omega arith)

  last_id_batches :
      (last : ℤ) (k : ℕ) (bs : List BookmarkRow)
      → last_id last (take (suc k * batch_size) bs)
        ≡ last_id (last_id last (take batch_size bs)) (take (k * batch_size) (drop batch_size bs))
  last_id_batches last k bs =
      ap (last_id last) (take_batches k bs)
      ∙ last_id-append last (take batch_size bs) (take (k * batch_size) (drop batch_size bs))

  IsEnd-append :
      (failure : ℤ → Option Fault) (last : ℤ) (bs : List BookmarkRow) (target next t : Target)
      (e : Option RunError)
      → failure last ≡ none
      → next.entries ≡ insert_all to_lower entry_uuid (take batch_size bs) target.entries
      → IsEnd failure (last_id last (take batch_size bs)) (drop batch_size bs) next t e
      → IsEnd failure last bs target t e
  unfolding last_id
  IsEnd-append failure last bs target next t e first step (inl (fine, later, all_of)) = inl (
    fine,
    no_failure,
    all_of
        ∙ ap (insert_all to_lower entry_uuid (drop batch_size bs)) step
        ∙ sym (
            insert_all-append to_lower entry_uuid (take batch_size bs) (drop batch_size bs)
              target.entries)
        ∙ ap (λ r. insert_all to_lower entry_uuid r target.entries)
            (take-append-drop batch_size bs),
  )
    where
      no_failure : (k : ℕ) → failure (last_id last (take (k * batch_size) bs)) ≡ none
      no_failure zero = first
      no_failure (suc k) = ap failure (last_id_batches last k bs) ∙ later k
  IsEnd-append failure last bs target next t e first step (inr (f, k, failed, there, some_of)) =
      inr (
        f,
        suc k,
        failed,
        ap failure (last_id_batches last k bs) ∙ there,
        some_of
            ∙ ap (insert_all to_lower entry_uuid (take (k * batch_size) (drop batch_size bs))) step
            ∙ sym (
                insert_all-append to_lower entry_uuid (take batch_size bs)
                  (take (k * batch_size) (drop batch_size bs)) target.entries)
            ∙ ap (λ r. insert_all to_lower entry_uuid r target.entries) (sym (take_batches k bs)),
      )

  module _ (failure : ℤ → Option Fault) (source : Source)
      (ascending : Ascending source.bookmarks) where
    nothing_left :
        (last : ℤ) (left : List BookmarkRow)
        → failure last ≡ none
        → left ≡ []
        → (k : ℕ) → failure (last_id last (take (k * batch_size) left)) ≡ none
    unfolding last_id
    nothing_left last left fine empty k =
        ap (λ bs. failure (last_id last (take (k * batch_size) bs))) empty
        ∙ ap (λ bs. failure (last_id last bs)) (take_nothing (k * batch_size))
        ∙ fine
      where
        take_nothing : (n : ℕ) → take {A = BookmarkRow} n [] ≡ []
        take_nothing zero = refl
        take_nothing (suc n) = refl

    migrate_from-IsEnd :
        (fuel : ℕ) (last : ℤ) (target : Target)
        → length (after last source.bookmarks) < fuel
        → (t : Target) × (e : Option RunError) × (migrate_from to_lower entry_uuid tag_uuid failure
              source fuel last target
            ≡ some (t, e))
          × IsEnd failure last (after last source.bookmarks) target t e
    unfolding migrate_from fetch_bookmarks_batch insert_all last_id
    migrate_from-IsEnd zero last target enough = absurd (omega arith)
    migrate_from-IsEnd (suc fuel) last target enough =
        let left = after last source.bookmarks in
        let batch = fetch_bookmarks_batch source.bookmarks last batch_size in
        elim (Option-cases (failure last)) [
          | inr (f, failed) ↦ (
            target,
            some (broken f),
            rw (migrate_from, failed) refl,
            inr (f, 0, refl, failed, refl),
          )
          | inl fine ↦ elim (is_empty_cases batch) [
            | inl (none_left, h) ↦ (
              target,
              none,
              rw (migrate_from, fine, h) refl,
              inl (
                refl,
                nothing_left last left fine (take_empty batch_size left (omega arith) none_left),
                ap (λ r. insert_all to_lower entry_uuid r target.entries)
                    (sym (take_empty batch_size left (omega arith) none_left)),
              ),
            )
            | inr (some_left, h) ↦
                let (next, stats, run, step) = migrate_batch_total source target batch in
                let rest_of : after (last_id last batch) source.bookmarks ≡ drop batch_size left =
                  after-last_id batch_size last source.bookmarks ascending in
                let fewer : length (after (last_id last batch) source.bookmarks) < fuel =
                  subst (λ r. length r < fuel) (sym rest_of)
                    (drop_fewer batch_size left fuel (filled_length (take batch_size left) h)
                      enough) in
                let (t, e, rest, end) = migrate_from-IsEnd fuel (last_id last batch) next fewer in
                (
                  t,
                  e,
                  rw (migrate_from, fine, h, run) rest,
                  IsEnd-append failure last left target next t e fine step
                      (subst (λ r. IsEnd failure (last_id last batch) r next t e) rest_of end),
                )
          ]
        ]

    -- If the bookmarks lie in the order of their ids, a run after a given id ends: either the
    -- databases fail in no round, after the given id and after the last one of any number of batches,
    -- and there is no error and the entries are what one pass over all bookmarks with greater ids makes of
    -- them; or a database failed in the round after some number of batches, this failure is the
    -- error, and the entries are what one pass over the bookmarks of these batches makes of them.
    pub migrate_batches-IsEnd :
        (last : ℤ) (target : Target)
        → (t : Target) × (e : Option RunError) × (migrate_batches to_lower entry_uuid tag_uuid
              failure source last target
            ≡ some (t, e))
          × (((e ≡ none)
                × ((k : ℕ)
                    → failure (last_id last (take (k * batch_size) (after last source.bookmarks)))
                      ≡ none)
                × (t.entries
                    ≡ insert_all to_lower entry_uuid (after last source.bookmarks) target.entries))
              ⊎ ((f : Fault) × (k : ℕ) × (e ≡ some (broken f))
                  × (failure (last_id last (take (k * batch_size) (after last source.bookmarks)))
                      ≡ some f)
                  × (t.entries
                      ≡ insert_all to_lower entry_uuid
                          (take (k * batch_size) (after last source.bookmarks))
                          target.entries)))
    unfolding migrate_batches
    migrate_batches-IsEnd last target =
        migrate_from-IsEnd (suc (length source.bookmarks)) last target
          (omega (arith, length-keep-le (λ b. ltb_ℤ last b.id) source.bookmarks))
