-- ===== src/Domain/Entry/Validation.antt =====
-- What New and Update accept, and what they build.
use hateblog_backend.Common.{
  ◌≤◌, ◌≡◌, refl, subst, ◌≢◌, ◌↔◌, ◌⊎◌, inl, inr, Bool, true, List, [], ◌∷◌, arith, length, All,
  pos, ◌≤ℤ◌, Result, ok, err, >>=-eq-ok, Bytes, is_empty, trim_space, Trimmed, trim_space-Trimmed,
  trim_space_idem,
}
use hateblog_backend.Domain.Tag.{Uuid, max_name}
use hateblog_backend.Domain.Tag.Names.{length-normalize_name-le}
use hateblog_backend.Domain.Entry.{
  EntryError, Tagging, Entry, Params, Time, validate_tagging, validate_taggings, validate_params,
  normalize_taggings, new, update, build_search_text,
}

-- A score from 0 to 100, an identifier and a name that is not blank.
pub record IsTagging (t : Tagging) : Type 0 where
  pub identified : t.tag_id ≢ 0
  pub named : trim_space t.name ≢ []
  pub least : pos 0 ≤ℤ t.score
  pub most : t.score ≤ℤ pos 100

pub record IsValid (is_request_uri : Bytes → Bool) (p : Params) : Type 0 where
  pub url_present : p.url ≢ []
  pub url_parses : is_request_uri p.url ≡ true
  pub titled : trim_space p.title ≢ []
  pub counted : pos 0 ≤ℤ p.bookmark_count
  pub dated : p.posted_at ≢ 0
  pub tagged : All IsTagging p.tags

is_empty_iff {ℓ} : {A : Type ℓ} (s : List A) → (is_empty s ≡ true) ↔ (s ≡ [])
is_empty_iff [] = ((λ h. refl), (λ h. refl))
is_empty_iff (a ∷ s) = ((λ h. cc), (λ h. cc))

validate_tagging_sound : (t : Tagging) → validate_tagging t ≡ ok tt → IsTagging t
unfolding validate_tagging
validate_tagging_sound t h = ground (arith, is_empty_iff (trim_space t.name))

validate_tagging_complete : (t : Tagging) → IsTagging t → validate_tagging t ≡ ok tt
unfolding validate_tagging
validate_tagging_complete t v = ground (arith, is_empty_iff (trim_space t.name))

validate_taggings_sound : (ts : List Tagging) → validate_taggings ts ≡ ok tt → All IsTagging ts
unfolding validate_taggings
validate_taggings_sound [] h = tt
validate_taggings_sound (t ∷ ts) h =
    let (u, first, rest) = >>=-eq-ok (validate_tagging t) (λ _. validate_taggings ts) h in
    (validate_tagging_sound t first, validate_taggings_sound ts rest)

validate_taggings_complete : (ts : List Tagging) → All IsTagging ts → validate_taggings ts ≡ ok tt
unfolding validate_taggings
validate_taggings_complete [] h = refl
validate_taggings_complete (t ∷ ts) (v, vs) =
    rw (validate_tagging_complete t v) (validate_taggings_complete ts vs)

module _ (is_request_uri : Bytes → Bool) where
  validate_params_sound :
      (p : Params) → validate_params is_request_uri p ≡ ok tt → IsValid is_request_uri p
  unfolding validate_params
  validate_params_sound p h =
      ground (
        arith,
        is_empty_iff p.url,
        is_empty_iff (trim_space p.title),
        validate_taggings_sound p.tags,
      )

  validate_params_complete :
      (p : Params) → IsValid is_request_uri p → validate_params is_request_uri p ≡ ok tt
  unfolding validate_params
  validate_params_complete p v = ground (
    arith,
    is_empty_iff p.url,
    is_empty_iff (trim_space p.title),
    validate_taggings_complete p.tags,
  )

  module _ (to_lower : Bytes → Bytes) where
    -- The entry that valid parameters stand for.
    abbrev built : Params → Entry
    built p = record {
      id = p.id;
      url = p.url;
      title = trim_space p.title;
      excerpt = trim_space p.excerpt;
      subject = trim_space p.subject;
      bookmark_count = p.bookmark_count;
      posted_at = p.posted_at;
      tags = normalize_taggings to_lower p.tags;
      created_at = p.created_at;
      updated_at = p.updated_at;
    }

    -- What holds of an entry that New or Update has accepted.
    pub record IsStored (e : Entry) : Type 0 where
      pub url_present : e.url ≢ []
      pub titled : e.title ≢ []
      pub trimmed : Trimmed e.title × (Trimmed e.excerpt × Trimmed e.subject)
      pub counted : pos 0 ≤ℤ e.bookmark_count
      pub dated : e.posted_at ≢ 0
      pub scored : All (λ t. (pos 0 ≤ℤ t.score) × (t.score ≤ℤ pos 100)) e.tags
      pub named : All (λ t. length t.name ≤ max_name) e.tags

    normalize_taggings-scored :
        (ts : List Tagging)
        → All IsTagging ts
        → All (λ t. (pos 0 ≤ℤ t.score) × (t.score ≤ℤ pos 100)) (normalize_taggings to_lower ts)
    unfolding normalize_taggings
    normalize_taggings-scored [] h = tt
    normalize_taggings-scored (t ∷ ts) (v, vs) =
        ((v.least, v.most), normalize_taggings-scored ts vs)

    normalize_taggings-named :
        (ts : List Tagging) → All (λ t. length t.name ≤ max_name) (normalize_taggings to_lower ts)
    unfolding normalize_taggings
    normalize_taggings-named [] = tt
    normalize_taggings-named (t ∷ ts) =
        (length-normalize_name-le to_lower t.name, normalize_taggings-named ts)

    -- The texts, the count and the tags of valid parameters, whoever holds them.
    abbrev filled : Params → Uuid → Time → Time → Entry
    filled p i created updated = record (built p) {
      id = i;
      created_at = created;
      updated_at = updated;
    }

    filled-IsStored :
        (p : Params) (i : Uuid) (created updated : Time)
        → IsValid is_request_uri p
        → IsStored (filled p i created updated)
    filled-IsStored p i created updated v = record {
      url_present = v.url_present;
      titled = v.titled;
      trimmed = (
        trim_space-Trimmed p.title,
        (trim_space-Trimmed p.excerpt, trim_space-Trimmed p.subject),
      );
      counted = v.counted;
      dated = v.dated;
      scored = normalize_taggings-scored p.tags v.tagged;
      named = normalize_taggings-named p.tags;
    }

    -- `New` succeeds exactly on the valid parameters: those with a URL that parses, a title that is
    -- not blank, a count that is not negative, a date, and tags each with an identifier, a name that
    -- is not blank and a score from 0 to 100.
    pub new_iff :
        (p : Params)
        → ((e : Entry) × (new is_request_uri to_lower p ≡ ok e)) ↔ IsValid is_request_uri p
    unfolding new
    new_iff p = (
      (λ (e, h).
          let (u, v, _) = >>=-eq-ok (validate_params is_request_uri p) (λ _. ok (built p)) h in
          validate_params_sound p v),
      (λ v. (built p, rw (validate_params_complete p v))),
    )

    -- An entry that `New` gives has a URL, a title, texts without white space at their ends, a
    -- count that is not negative, a date, tag scores from 0 to 100 and tag names of at most 255
    -- bytes, and carries the identifier and the times of the parameters.
    pub new-IsStored :
        (p : Params) (e : Entry)
        → new is_request_uri to_lower p ≡ ok e
        → IsStored e × (e.id ≡ p.id) × (e.created_at ≡ p.created_at) × (e.updated_at ≡ p.updated_at)
    unfolding new
    new-IsStored p e h =
        let (u, v, q) = >>=-eq-ok (validate_params is_request_uri p) (λ _. ok (built p)) h in
        let same : built p ≡ e = cc q in
        subst
          (λ x.
            IsStored x
            × (x.id ≡ p.id)
            × (x.created_at ≡ p.created_at)
            × (x.updated_at ≡ p.updated_at))
          same
          (
            filled-IsStored p p.id p.created_at p.updated_at (validate_params_sound p v),
            refl,
            refl,
            refl,
          )

    -- `Update` either accepts, with `New`, valid parameters, keeps the identifier and the creation
    -- time, and leaves an entry as sound as `New` does; or it refuses parameters that are not valid
    -- with the error that `New` gives for them.
    pub update-IsStored :
        (p : Params) (old : Entry)
        → ((e made : Entry) × (update is_request_uri to_lower old p ≡ ok e)
            × (new is_request_uri to_lower p ≡ ok made)
            × IsStored e
            × IsValid is_request_uri p
            × (e.id ≡ old.id)
            × (e.created_at ≡ old.created_at)
            × (e.updated_at ≡ p.updated_at))
          ⊎ ((x : EntryError) × (update is_request_uri to_lower old p ≡ err x)
              × (new is_request_uri to_lower p ≡ err x)
              × ¬ IsValid is_request_uri p)
    unfolding update new
    update-IsStored p old = go (validate_params is_request_uri p) refl
      where
        go :
            (r : Result EntryError (Unit {0}))
            → validate_params is_request_uri p ≡ r
            → ((e made : Entry) × (update is_request_uri to_lower old p ≡ ok e)
                × (new is_request_uri to_lower p ≡ ok made)
                × IsStored e
                × IsValid is_request_uri p
                × (e.id ≡ old.id)
                × (e.created_at ≡ old.created_at)
                × (e.updated_at ≡ p.updated_at))
              ⊎ ((x : EntryError) × (update is_request_uri to_lower old p ≡ err x)
                  × (new is_request_uri to_lower p ≡ err x)
                  × ¬ IsValid is_request_uri p)
        go (ok tt) q =
            let valid = validate_params_sound p q in
            inl (
              filled p old.id old.created_at p.updated_at,
              built p,
              rw q refl,
              rw q refl,
              filled-IsStored p old.id old.created_at p.updated_at valid,
              valid,
              refl,
              refl,
              refl,
            )
        go (err x) q = inr (x, rw q refl, rw q refl, λ v. cc (q, validate_params_complete p v))

-- The search text is made of the trimmed fields: trimming them first, as New does, changes nothing.
pub build_search_text-trim_space :
    (to_lower : Bytes → Bytes) (title excerpt url : Bytes)
    → build_search_text to_lower (trim_space title) (trim_space excerpt) (trim_space url)
      ≡ build_search_text to_lower title excerpt url
unfolding build_search_text
build_search_text-trim_space to_lower title excerpt url =
    rw (trim_space_idem title, trim_space_idem excerpt, trim_space_idem url)
