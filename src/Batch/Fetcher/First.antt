-- ===== src/Batch/Fetcher/First.antt =====
-- The loops with their breaks give the first entries of all feeds, each URL once.
use hateblog_backend.Common.{
  ℕ, zero, suc, ◌≤◌, ◌<◌, ◌≡◌, refl, sym, ap, ◌∙◌, inl, inr, true, false, ◌||◌, List, [], ◌∷◌, ◌++◌,
  map, append-nil, append_assoc, arith, leb, if◌then◌else◌, Bool-cases, length, take, length-append,
  length-take, take_all, ℤ, pos, pos_part, leb_ℤ, Result, ok, Bytes, bytes_eq, bytes_eq_sound,
  bytes_eq_refl, is_empty, trim_space, has_text, Distinct,
}
use hateblog_backend.Batch.Fetcher.{
  fetch_entries, add_feeds, Fault, FeedEntry, FeedItem, item_of, has_item, add_entries,
}

-- The entries with a URL that has not come before, without a bound.
unfoldable pub unique_from : List FeedItem → List FeedEntry → List FeedItem
unique_from seen [] = []
unique_from seen (e ∷ es) =
    let skipped = unique_from seen es in
    let more = unique_from (seen ++ item_of e ∷ []) es in
    if is_empty (trim_space e.url)
    then skipped
    else if has_item seen (trim_space e.url)
    then skipped
    else item_of e ∷ more

take_full {ℓ} :
    {A : Type ℓ} (n : ℕ) (xs ys : List A) → n ≤ length xs → take n (xs ++ ys) ≡ take n xs
take_full zero xs ys h = refl
take_full (suc n) [] ys h = absurd (omega arith)
take_full (suc n) (x ∷ xs) ys h = ap (λ r. x ∷ r) (take_full n xs ys (omega arith))

add_entries-unique_from :
    (most : ℕ) (seen : List FeedItem) (es : List FeedEntry)
    → length seen < most
    → add_entries most seen es ≡ take most (seen ++ unique_from seen es)
unfolding add_entries unique_from
add_entries-unique_from most seen [] h =
    sym (ap (take most) (append-nil seen) ∙ take_all most seen (omega arith))
add_entries-unique_from most seen (e ∷ es) h = elim (Bool-cases (is_empty (trim_space e.url))) [
  | inl blank ↦ rw blank (add_entries-unique_from most seen es h)
  | inr filled ↦ elim (Bool-cases (has_item seen (trim_space e.url))) [
    | inl known ↦ rw (filled, known) (add_entries-unique_from most seen es h)
    | inr fresh ↦
        let grown : List FeedItem = seen ++ item_of e ∷ [] in
        let rest = unique_from grown es in
        let size = length-append seen (item_of e ∷ []) in
        let assoc : take most (grown ++ rest) ≡ take most (seen ++ item_of e ∷ rest) =
          ap (take most) (append_assoc seen (item_of e ∷ []) rest) in
        elim (Bool-cases (leb most (length grown))) [
          | inl full ↦
              rw (filled, fresh, full)
                (sym (
                  sym assoc
                  ∙ take_full most grown rest (ground (arith, full))
                  ∙ take_all most grown (omega (arith, size, h))))
          | inr room ↦
              rw (filled, fresh, room)
                (add_entries-unique_from most grown es (ground (arith, room)) ∙ assoc)
        ]
  ]
]

unique_from-append :
    (seen : List FeedItem) (xs ys : List FeedEntry)
    → unique_from seen (xs ++ ys)
      ≡ unique_from seen xs ++ unique_from (seen ++ unique_from seen xs) ys
unfolding unique_from
unique_from-append seen [] ys = ap (λ s. unique_from s ys) (sym (append-nil seen))
unique_from-append seen (e ∷ xs) ys = elim (Bool-cases (is_empty (trim_space e.url))) [
  | inl blank ↦ rw blank (unique_from-append seen xs ys)
  | inr filled ↦ elim (Bool-cases (has_item seen (trim_space e.url))) [
    | inl known ↦ rw (filled, known) (unique_from-append seen xs ys)
    | inr fresh ↦
        let grown : List FeedItem = seen ++ item_of e ∷ [] in
        rw (filled, fresh)
          (ap (λ r. item_of e ∷ r)
            (unique_from-append grown xs ys
              ∙ ap (λ s. unique_from grown xs ++ unique_from s ys)
                  (append_assoc seen (item_of e ∷ []) (unique_from grown xs))))
  ]
]

has_item-append :
    (xs ys : List FeedItem) (u : Bytes) → has_item (xs ++ ys) u ≡ (has_item xs u || has_item ys u)
has_item-append [] ys u = refl
has_item-append (x ∷ xs) ys u = ground (arith, has_item-append xs ys u)

abbrev pub urls_of : List FeedItem → List Bytes
urls_of items = map (λ i. i.url) items

-- No URL that is known comes again.
unique_from_fresh :
    (seen : List FeedItem) (es : List FeedEntry) (u : Bytes)
    → has_item seen u ≡ true
    → has_text u (urls_of (unique_from seen es)) ≡ false
unfolding unique_from item_of
unique_from_fresh seen [] u h = refl
unique_from_fresh seen (e ∷ es) u h = elim (Bool-cases (is_empty (trim_space e.url))) [
  | inl blank ↦ rw blank (unique_from_fresh seen es u h)
  | inr filled ↦ elim (Bool-cases (has_item seen (trim_space e.url))) [
    | inl known ↦ rw (filled, known) (unique_from_fresh seen es u h)
    | inr fresh ↦
        let grown : List FeedItem = seen ++ item_of e ∷ [] in
        let same : bytes_eq (trim_space e.url) u ≡ true
            → has_item seen (trim_space e.url) ≡ has_item seen u =
          λ s. ap (has_item seen) (bytes_eq_sound (trim_space e.url) u s) in
        let later : has_text u (urls_of (unique_from grown es)) ≡ false =
          unique_from_fresh grown es u
            (ground (arith, has_item-append seen (item_of e ∷ []) u, h)) in
        rw (filled, fresh) (ground (arith, same, later, h, fresh))
  ]
]

unique_from-Distinct :
    (seen : List FeedItem) (es : List FeedEntry) → Distinct (urls_of (unique_from seen es))
unfolding unique_from item_of
unique_from-Distinct seen [] = tt
unique_from-Distinct seen (e ∷ es) = elim (Bool-cases (is_empty (trim_space e.url))) [
  | inl blank ↦ rw blank (unique_from-Distinct seen es)
  | inr filled ↦ elim (Bool-cases (has_item seen (trim_space e.url))) [
    | inl known ↦ rw (filled, known) (unique_from-Distinct seen es)
    | inr fresh ↦
        let grown : List FeedItem = seen ++ item_of e ∷ [] in
        let there : has_item grown (trim_space e.url) ≡ true = ground (
          arith,
          has_item-append seen (item_of e ∷ []) (trim_space e.url),
          bytes_eq_refl (trim_space e.url),
        ) in
        rw (filled, fresh)
          (unique_from_fresh grown es (trim_space e.url) there, unique_from-Distinct grown es)
  ]
]

has_text-take :
    (u : Bytes) (n : ℕ) (items : List FeedItem)
    → has_text u (urls_of items) ≡ false
    → has_text u (urls_of (take n items)) ≡ false
has_text-take u zero items h = refl
has_text-take u (suc n) [] h = refl
has_text-take u (suc n) (i ∷ items) h = ground (arith, has_text-take u n items, h)

take-Distinct :
    (n : ℕ) (items : List FeedItem) → Distinct (urls_of items) → Distinct (urls_of (take n items))
take-Distinct zero items d = tt
take-Distinct (suc n) [] d = tt
take-Distinct (suc n) (i ∷ items) (first, d) =
    (has_text-take i.url n items first, take-Distinct n items d)

-- The entries of all feeds whose URL is not blank.
unfoldable pub all_entries : (Bytes → List FeedEntry) → List Bytes → List FeedEntry
all_entries entries [] = []
all_entries entries (raw ∷ feeds) =
    let rest = all_entries entries feeds in
    if is_empty (trim_space raw) then rest else entries (trim_space raw) ++ rest

module _ (fetch_feed : Bytes → Result Fault (List FeedEntry)) (entries : Bytes → List FeedEntry)
    (answers : (u : Bytes) → fetch_feed u ≡ ok (entries u)) where
  add_feeds-unique_from :
      (most : ℕ) (seen : List FeedItem) (feeds : List Bytes)
      → length seen < most
      → add_feeds fetch_feed most seen feeds
        ≡ ok (take most (seen ++ unique_from seen (all_entries entries feeds)))
  unfolding add_feeds all_entries unique_from
  add_feeds-unique_from most seen [] h =
      ap ok (sym (ap (take most) (append-nil seen) ∙ take_all most seen (omega arith)))
  add_feeds-unique_from most seen (raw ∷ feeds) h = elim (Bool-cases (is_empty (trim_space raw))) [
    | inl blank ↦ rw blank (add_feeds-unique_from most seen feeds h)
    | inr filled ↦
        let xs = entries (trim_space raw) in
        let rest = all_entries entries feeds in
        let found = seen ++ unique_from seen xs in
        let whole : take most (found ++ unique_from found rest)
            ≡ take most (seen ++ unique_from seen (xs ++ rest)) =
          ap (take most) (
            append_assoc seen (unique_from seen xs) (unique_from found rest)
            ∙ ap (λ r. seen ++ r) (sym (unique_from-append seen xs rest))) in
        let size = length-take most found in
        rw (add_feeds, filled, answers (trim_space raw), add_entries-unique_from most seen xs h)
          (elim (Bool-cases (leb most (length (take most found)))) [
            | inl full ↦ rw full (
                ap ok (
                  sym (take_full most found (unique_from found rest) (ground (arith, full, size)))
                  ∙ whole))
            | inr room ↦
                let few : length found < most = ground (arith, room, size) in
                let all_found : take most found ≡ found =
                  take_all most found (omega (arith, few)) in
                rw room (
                  ap (λ s. add_feeds fetch_feed most s feeds) all_found
                  ∙ add_feeds-unique_from most found feeds few
                  ∙ ap ok whole)
          ])
  ]

  -- When all feeds answer, the items are, in the order of sort.Slice, the first entries of all feeds
  -- whose trimmed URL is not blank and has not come before, at most `max` of them, or one if `max` is
  -- not positive; and no two have the same URL.
  pub fetch_entries_lem :
      (sort : List FeedItem → List FeedItem) (feeds : List Bytes) (max : ℤ)
      → (items : List FeedItem) × (fetch_entries fetch_feed sort feeds max ≡ ok (sort items))
        × (items
            ≡ take
                (if leb_ℤ max (pos 0) then 1 else pos_part max)
                (unique_from [] (all_entries entries feeds)))
        × Distinct (urls_of items)
  unfolding fetch_entries
  fetch_entries_lem sort feeds max =
      let most : ℕ = if leb_ℤ max (pos 0) then 1 else pos_part max in
      let positive : 0 < most = ground arith in
      let unique = unique_from [] (all_entries entries feeds) in
      (
        take most unique,
        rw (fetch_entries, add_feeds-unique_from most [] feeds positive) refl,
        refl,
        take-Distinct most unique (unique_from-Distinct [] (all_entries entries feeds)),
      )
