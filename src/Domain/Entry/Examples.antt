-- ===== src/Domain/Entry/Examples.antt =====
-- Tests of New and Update, and the theorems about them at concrete parameters.
use hateblog_backend.Common.{
  ◌≡◌, refl, ◌↔◌, ◌⊎◌, Bool, [], ◌∷◌, pos, ok, err, Bytes, codes, trim_space, has_prefix,
}
use hateblog_backend.Domain.Tag.{normalize_name, truncate_utf8}
use hateblog_backend.Domain.Entry.{
  EntryError, Entry, Params, new, update, validate_tagging, validate_taggings, validate_params,
  normalize_taggings, build_search_text, search_part, join_blank,
}
use hateblog_backend.Domain.Entry.Validation.{
  IsValid, IsStored, new_iff, new-IsStored, update-IsStored,
}

-- url.ParseRequestURI accepts a text that starts with a slash or has a scheme; https stands for all.
abbrev starts_https : Bytes → Bool
starts_https u = has_prefix u (codes "https://")

abbrev as_is : Bytes → Bytes
as_is s = s

abbrev sample_params : Params
sample_params = record {
  id = 1;
  url = codes "https://a.b";
  title = codes " A ";
  excerpt = codes " ";
  subject = [];
  bookmark_count = pos 4;
  posted_at = 100;
  tags = record { tag_id = 2; name = codes "go "; score = pos 100 } ∷ [];
  created_at = 101;
  updated_at = 102;
}

abbrev sample_stored : Entry
sample_stored = record {
  id = 1;
  url = codes "https://a.b";
  title = codes "A";
  excerpt = [];
  subject = [];
  bookmark_count = pos 4;
  posted_at = 100;
  tags = record { tag_id = 2; name = codes "go"; score = pos 100 } ∷ [];
  created_at = 101;
  updated_at = 102;
}

new_sample : new starts_https as_is sample_params ≡ ok sample_stored
unfolding new validate_params validate_taggings validate_tagging normalize_taggings normalize_name
    truncate_utf8 trim_space has_prefix
new_sample = refl

abbrev older : Entry
older = record sample_stored { id = 9; created_at = 50; updated_at = 60 }

update_sample :
    update starts_https as_is older sample_params
    ≡ ok (record sample_stored { id = 9; created_at = 50 })
unfolding update validate_params validate_taggings validate_tagging normalize_taggings
    normalize_name truncate_utf8 trim_space has_prefix
update_sample = refl

search_text_sample : build_search_text as_is (codes " A ") (codes " ") (codes "u") ≡ codes "A u"
unfolding build_search_text search_part join_blank trim_space
search_text_sample = refl

new_iff_example :
    ((e : Entry) × (new starts_https as_is sample_params ≡ ok e))
    ↔ IsValid starts_https sample_params
new_iff_example = new_iff starts_https as_is sample_params

new-IsStored_example :
    IsStored starts_https as_is sample_stored
    × (sample_stored.id ≡ sample_params.id)
    × (sample_stored.created_at ≡ sample_params.created_at)
    × (sample_stored.updated_at ≡ sample_params.updated_at)
new-IsStored_example = new-IsStored starts_https as_is sample_params sample_stored new_sample

update-IsStored_example :
    ((e made : Entry) × (update starts_https as_is older sample_params ≡ ok e)
      × (new starts_https as_is sample_params ≡ ok made)
      × IsStored starts_https as_is e
      × IsValid starts_https sample_params
      × (e.id ≡ older.id)
      × (e.created_at ≡ older.created_at)
      × (e.updated_at ≡ sample_params.updated_at))
    ⊎ ((x : EntryError) × (update starts_https as_is older sample_params ≡ err x)
        × (new starts_https as_is sample_params ≡ err x)
        × ¬ IsValid starts_https sample_params)
update-IsStored_example = update-IsStored starts_https as_is sample_params older
