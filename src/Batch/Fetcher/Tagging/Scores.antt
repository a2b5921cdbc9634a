-- ===== src/Batch/Fetcher/Tagging/Scores.antt =====
-- The scores of an entry's tags, and that each entry without a failure has a tag.
use hateblog_backend.Common.{
  ℕ, suc, ◌≡◌, refl, ap, ◌⊎◌, inl, inr, Bool, true, false, not, ◌&&◌, ◌||◌, Option, none, some,
  List, [], ◌∷◌, ◌++◌, arith, ◌==◌, Bool-cases, Option-cases, all, any, ℤ, pos, leb_ℤ, Result, ok,
  err, Bytes, is_empty,
}
use hateblog_backend.Domain.Tag.{Uuid, normalize_name}
use hateblog_backend.Batch.Migrator.Tags.{sanitize_utf8}
use hateblog_backend.Batch.Fetcher.Tagging.{
  dummy_tag_score, dummy_tag_name, Attached, attach_dummy_tag, or_dummy, attach_tags,
  normalize_name, Phrase, attach_phrases, Fault, EntryTag, clamp, insert_tag,
}

abbrev pub are_scores : List EntryTag → Bool
are_scores rows = all (λ r. leb_ℤ (pos 0) r.score && leb_ℤ r.score (pos 100)) rows

are_scores-append :
    (rows new : List EntryTag) → are_scores (rows ++ new) ≡ (are_scores rows && are_scores new)
are_scores-append [] new = refl
are_scores-append (r ∷ rows) new = ground (arith, are_scores-append rows new)

clamp_bounds : (s : ℤ) → (leb_ℤ (pos 0) (clamp s) && leb_ℤ (clamp s) (pos 100)) ≡ true
unfolding clamp
clamp_bounds s = ground arith

-- Scores from 0 to 100, and a row if something was added.
abbrev pub is_sound : List EntryTag → ℕ → Bool
is_sound rows added = are_scores rows && (added == 0 || not (is_empty rows))

insert_tag-are_scores :
    (id : Uuid) (s : ℤ) (rows : List EntryTag)
    → (leb_ℤ (pos 0) s && leb_ℤ s (pos 100)) ≡ true
    → are_scores rows ≡ true
    → (are_scores (insert_tag id s rows) ≡ true) × (is_empty (insert_tag id s rows) ≡ false)
unfolding insert_tag
insert_tag-are_scores id s [] b h = (ground (arith, b), refl)
insert_tag-are_scores id s (r ∷ rows) b h =
    elim (Bool-cases (any (λ x. x.tag_id == id) (r ∷ rows))) [
      | inl old ↦ rw old (h, refl)
      | inr new ↦ rw new (
        ground (arith, are_scores-append (r ∷ rows) (record { tag_id = id; score = s } ∷ []), h, b),
        refl,
      )
    ]

Result-cases {ℓ} :
    {A : Type ℓ} (o : Result Fault A) → ((a : A) × (o ≡ ok a)) ⊎ ((f : Fault) × (o ≡ err f))
Result-cases (ok a) = inl (a, refl)
Result-cases (err f) = inr (f, refl)

abbrev pub has_failed : Option Fault → Bool
has_failed none = false
has_failed (some f) = true

module _ (to_lower : Bytes → Bytes) (upsert : Bytes → Result Fault Uuid)
    (failure : Uuid → Option Fault) where
  attach_phrases-is_sound :
      (ps : List Phrase) (rows : List EntryTag) (added abnormal : ℕ)
      → is_sound rows added ≡ true
      → is_sound
          (attach_phrases to_lower upsert failure ps rows added abnormal).rows
          (attach_phrases to_lower upsert failure ps rows added abnormal).added
        ≡ true
  unfolding attach_phrases
  attach_phrases-is_sound [] rows added abnormal h = h
  attach_phrases-is_sound (p ∷ ps) rows added abnormal h =
      let name = normalize_name to_lower (sanitize_utf8 p.text) in
      elim (Bool-cases (is_empty name)) [
        | inl blank ↦ rw (attach_phrases, blank) (attach_phrases-is_sound ps rows added abnormal h)
        | inr named ↦ elim (Result-cases (upsert name)) [
          | inr (f, e) ↦ rw (attach_phrases, named, e) h
          | inl (id, e) ↦ elim (Option-cases (failure id)) [
            | inr (f, broken) ↦ rw (attach_phrases, named, e, broken) h
            | inl fine ↦
                let (good, filled) =
                  insert_tag-are_scores id (clamp p.score) rows (clamp_bounds p.score)
                    (ground (arith, h)) in
                rw (attach_phrases, named, e, fine)
                  (attach_phrases-is_sound ps (insert_tag id (clamp p.score) rows) (suc added) _
                    (ground (arith, good, filled)))
          ]
        ]
      ]

  or_dummy-is_sound :
      (a : Attached)
      → are_scores a.rows ≡ true
      → (are_scores (or_dummy to_lower upsert failure a).rows ≡ true)
        × ((has_failed (or_dummy to_lower upsert failure a).failed
              || not (is_empty (or_dummy to_lower upsert failure a).rows))
            ≡ true)
  unfolding or_dummy attach_dummy_tag
  or_dummy-is_sound a h = elim (Result-cases (upsert dummy_tag_name)) [
    | inr (f, e) ↦ rw (or_dummy, attach_dummy_tag, e) (h, refl)
    | inl (id, e) ↦ elim (Option-cases (failure id)) [
      | inr (f, broken) ↦ rw (or_dummy, attach_dummy_tag, e, broken) (h, refl)
      | inl fine ↦
          let (good, filled) = insert_tag-are_scores id dummy_tag_score a.rows refl h in
          rw (or_dummy, attach_dummy_tag, e, fine) (good, ground (arith, filled))
    ]
  ]

  -- If the tags of an entry have scores from 0 to 100, so have those after attachTags, whatever the
  -- phrases are and wherever it fails; and if it does not fail, the entry has a tag.
  pub attach_tags_lem :
      (phrases : Result Fault (List Phrase)) (rows : List EntryTag)
      → are_scores rows ≡ true
      → (are_scores (attach_tags to_lower upsert failure phrases rows).rows ≡ true)
        × ((has_failed (attach_tags to_lower upsert failure phrases rows).failed
              || not (is_empty (attach_tags to_lower upsert failure phrases rows).rows))
            ≡ true)
  unfolding attach_tags
  attach_tags_lem (err f) rows h = (h, refl)
  attach_tags_lem (ok ps) rows h =
      let a = attach_phrases to_lower upsert failure ps rows 0 0 in
      let sound : is_sound a.rows a.added ≡ true =
        attach_phrases-is_sound ps rows 0 0 (ground (arith, h)) in
      elim (Option-cases a.failed) [
        | inr (f, e) ↦ rw (attach_tags, e) (ground (arith, sound), ground (arith, ap has_failed e))
        | inl e ↦ elim (Bool-cases (a.added == 0)) [
          | inl nothing ↦ rw (attach_tags, e, nothing) (or_dummy-is_sound a (ground (arith, sound)))
          | inr something ↦
              rw (attach_tags, e, something)
                (ground (arith, sound), ground (arith, sound, something))
        ]
      ]
