-- ===== src/Batch/Fetcher.antt =====
-- `fetchEntries` of cmd/fetcher/main.go: the entries of the feeds, each URL once, and at most `max`.
pub mod Tagging
pub mod First
pub mod Examples
use hateblog_backend.Common.{
  ℕ, ◌+◌, ◌-◌, ◌/◌, ap, Bool, List, [], ◌∷◌, ◌++◌, map, leb, if◌then◌else◌, length, any, ℤ, pos,
  pos_part, leb_ℤ, Result, ok, err, Bytes, codes, bytes_eq, is_empty, trim_space,
}
use hateblog_backend.Usecase.Ports.{Fault}
use hateblog_backend.Domain.Entry.{Time}

-- What the parser of a feed gives for an entry.
pub record FeedEntry : Type 0 where
  pub title : Bytes
  pub url : Bytes
  pub excerpt : Bytes
  pub subjects : List Bytes
  pub bookmark_count : ℤ
  pub published_at : Time

pub record FeedItem : Type 0 where
  pub title : Bytes
  pub url : Bytes
  pub excerpt : Bytes
  pub subject : Bytes
  pub bookmark_count : ℤ
  pub posted_at : Time

-- `strings.Join(e.Subjects, ",")`
unfoldable pub join_subjects : List Bytes → Bytes
join_subjects [] = []
join_subjects (s ∷ []) = s
join_subjects (s ∷ t ∷ ts) = s ++ codes "," ++ join_subjects (t ∷ ts)

unfoldable pub item_of : FeedEntry → FeedItem
item_of e = record {
  title = trim_space e.title;
  url = trim_space e.url;
  excerpt = trim_space e.excerpt;
  subject = trim_space (join_subjects e.subjects);
  bookmark_count = e.bookmark_count;
  posted_at = e.published_at;
}

-- `_, ok := seen[url]`; the map is the list of its items, in the order in which they came.
abbrev pub has_item : List FeedItem → Bytes → Bool
has_item seen u = any (λ i. bytes_eq i.url u) seen

-- The inner loop, with its break.
unfoldable pub add_entries : ℕ → List FeedItem → List FeedEntry → List FeedItem
add_entries most seen [] = seen
add_entries most seen (e ∷ es) =
    let skipped = add_entries most seen es in
    let grown : List FeedItem = seen ++ item_of e ∷ [] in
    let more = add_entries most grown es in
    if is_empty (trim_space e.url)
    then skipped
    else if has_item seen (trim_space e.url)
    then skipped
    else if leb most (length grown)
    then grown
    else more

module _ (fetch_feed : Bytes → Result Fault (List FeedEntry)) where
  -- The outer loop, with its break.
  unfoldable pub add_feeds : ℕ → List FeedItem → List Bytes → Result Fault (List FeedItem)
  add_feeds most seen [] = ok seen
  add_feeds most seen (raw ∷ feeds) =
      let skipped = add_feeds most seen feeds in
      let next : List FeedItem → Result Fault (List FeedItem) = λ items.
        let more = add_feeds most items feeds in
        if leb most (length items) then ok items else more in
      if is_empty (trim_space raw) then skipped else elim (fetch_feed (trim_space raw)) [
        | err f ↦ err f
        | ok es ↦ next (add_entries most seen es)
      ]

  -- With sort.Slice as an argument: the items of the map, the latest first.
  unfoldable pub fetch_entries :
      (List FeedItem → List FeedItem) → List Bytes → ℤ → Result Fault (List FeedItem)
  fetch_entries sort feeds max =
      let most : ℕ = if leb_ℤ max (pos 0) then 1 else pos_part max in
      elim (add_feeds most [] feeds) [ err f ↦ err f | ok items ↦ ok (sort items) ]
