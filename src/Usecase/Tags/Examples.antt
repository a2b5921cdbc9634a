-- ===== src/Usecase/Tags/Examples.antt =====
-- The tag list with a table as the cache.
use hateblog_backend.Common.{
  ◌≡◌, ap₂, Bool, true, ◌&&◌, List, [], ◌∷◌, &&-true, take, drop, ℤ, pos, negsuc, pos_part, eqb_ℤ,
  eqb_ℤ_iff, ok, codes,
}
use hateblog_backend.Domain.Tag.{Tag}
use hateblog_backend.Usecase.Ports.{Cache}
use hateblog_backend.Usecase.Samples.{table, table-IsCache}
use hateblog_backend.Usecase.Tags.{TagRepository, page_key, list_with_cache_status}
use hateblog_backend.Usecase.Tags.Listing.{IsCoherent, IsListing, list_with_cache_status-IsListing}

abbrev sample_tags : List Tag
sample_tags = record { id = 1; name = codes "go" } ∷ record { id = 2; name = codes "web" } ∷ []

abbrev sample_tag_repo : TagRepository
sample_tag_repo = record {
  get_by_name = λ name. ok (record { id = 1; name = name });
  list = λ limit offset. ok (take (pos_part limit) (drop (pos_part offset) sample_tags));
  get_trending = λ hours least limit. ok [];
  get_clicked = λ days limit. ok [];
}

abbrev page_eq : ℤ × ℤ → ℤ × ℤ → Bool
page_eq (a, b) (c, d) = eqb_ℤ a c && eqb_ℤ b d

page_eq_sound : (j k : ℤ × ℤ) → page_eq j k ≡ true → j ≡ k
page_eq_sound (a, b) (c, d) h =
    let (p, q) = &&-true (eqb_ℤ a c) (eqb_ℤ b d) h in
    ap₂ (λ x y. (x, y)) ((eqb_ℤ_iff a c).0 p) ((eqb_ℤ_iff b d).0 q)

abbrev tag_lists : Cache (ℤ × ℤ) (List Tag)
tag_lists = table page_eq page_eq_sound

empty-IsCoherent : IsCoherent sample_tag_repo tag_lists true []
empty-IsCoherent key tags h = cc h

list_with_cache_status-IsListing_example :
    IsListing sample_tag_repo tag_lists true
      (page_key (pos 0) (negsuc 3))
      (tag_lists.get [] (page_key (pos 0) (negsuc 3)))
      (list_with_cache_status sample_tag_repo tag_lists true (pos 0) (negsuc 3) [])
list_with_cache_status-IsListing_example =
    list_with_cache_status-IsListing sample_tag_repo tag_lists true
      (table-IsCache page_eq page_eq_sound) (pos 0) (negsuc 3) [] empty-IsCoherent
