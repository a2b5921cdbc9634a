-- ===== src/Batch/Fetcher/Examples.antt =====
-- Examples of fetched feeds.
use hateblog_backend.Common.{
  ◌≡◌, refl, true, not, ◌||◌, Option, none, List, [], ◌∷◌, length, take, pos, Result, ok, Bytes,
  codes, is_empty, trim_space, Distinct,
}
use hateblog_backend.Usecase.Ports.{Fault}
use hateblog_backend.Domain.Tag.{Uuid}
use hateblog_backend.Batch.Fetcher.Tagging.{Phrase, attach_tags}
use hateblog_backend.Batch.Fetcher.Tagging.Scores.{are_scores, has_failed, attach_tags_lem}
use hateblog_backend.Batch.Fetcher.{item_of, FeedEntry, FeedItem, fetch_entries}
use hateblog_backend.Batch.Fetcher.First.{unique_from, urls_of, all_entries, fetch_entries_lem}

abbrev entry : Bytes → FeedEntry
entry u = record {
  title = codes "t";
  url = u;
  excerpt = [];
  subjects = [];
  bookmark_count = pos 1;
  published_at = 5;
}

-- Each feed has its own URL twice, and one that all have.
abbrev entries : Bytes → List FeedEntry
entries u = entry u ∷ entry (32 ∷ u) ∷ entry (codes "x") ∷ []

abbrev fetch_feed : Bytes → Result Fault (List FeedEntry)
fetch_feed u = ok (entries u)

abbrev in_order : List FeedItem → List FeedItem
in_order items = items

abbrev feeds : List Bytes
feeds = codes "a" ∷ codes " " ∷ codes "b" ∷ []

fetch_entries_lem_example :
    (items : List FeedItem) × (fetch_entries fetch_feed in_order feeds (pos 2)
      ≡ ok (in_order items))
    × (items ≡ take 2 (unique_from [] (all_entries entries feeds)))
    × Distinct (urls_of items)
fetch_entries_lem_example = fetch_entries_lem fetch_feed entries (λ u. refl) in_order feeds (pos 2)

first_test :
    urls_of (unique_from [] (all_entries entries feeds)) ≡ codes "a" ∷ codes "x" ∷ codes "b" ∷ []
unfolding unique_from all_entries item_of trim_space
first_test = refl

abbrev in_case : Bytes → Bytes
in_case s = s

abbrev phrases : Result Fault (List Phrase)
phrases = ok (record { text = codes "go"; score = pos 140 } ∷ [])

abbrev upsert : Bytes → Result Fault Uuid
upsert name = ok (length name)

abbrev no_failure : Uuid → Option Fault
no_failure id = none

attach_tags_lem_example :
    (are_scores (attach_tags in_case upsert no_failure phrases []).rows ≡ true)
    × ((has_failed (attach_tags in_case upsert no_failure phrases []).failed
          || not (is_empty (attach_tags in_case upsert no_failure phrases []).rows))
        ≡ true)
attach_tags_lem_example = attach_tags_lem in_case upsert no_failure phrases [] refl
