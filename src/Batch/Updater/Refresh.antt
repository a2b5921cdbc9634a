-- ===== src/Batch/Updater/Refresh.antt =====
-- `applyCounts` against a description of the table that it leaves.
use hateblog_backend.Common.{
  ◌≡◌, refl, ap, ap₂, ◌∙◌, inl, inr, Bool, true, ◌||◌, Option, none, some, List, [], ◌∷◌, map,
  arith, ltb, if◌then◌else◌, Bool-cases, length, keep, any, ℤ, Bytes, bytes_eq, bytes_eq_sym,
  bytes_eq_sound, has_text, find_text,
}
use hateblog_backend.Infra.Hatena.{Counts}
use hateblog_backend.Batch.Entries.{
  with_count, Row, Table, Statement, filter_map, change_row, affected, is_target, change,
}

-- A row whose URL is among those that were refreshed.
unfoldable pub refreshed : ℤ → Counts → List Bytes → Row → Row
refreshed now counts urls r =
    if has_text r.url urls then with_count (find_text counts r.url) now r else r

abbrev pub refresh_row : Option ℤ → ℤ → Bytes → Row → Row
refresh_row c now u r = if bytes_eq r.url u then with_count c now r else r

change_row_refresh :
    (c : Option ℤ) (now : ℤ) (u : Bytes) (r : Row)
    → change_row (Statement.refresh c now u) r ≡ some (refresh_row c now u r)
unfolding change_row change is_target
change_row_refresh c now u r = ground arith

filter_map_total {ℓ ℓ₁} :
    {A : Type ℓ} {B : Type ℓ₁} (f : A → Option B) (g : A → B) (xs : List A)
    → ((x : A) → f x ≡ some (g x))
    → filter_map f xs ≡ map g xs
filter_map_total f g [] h = refl
filter_map_total f g (x ∷ xs) h =
    rw (filter_map, h x) (ap (λ r. g x ∷ r) (filter_map_total f g xs h))

pub filter_map-refresh :
    (c : Option ℤ) (now : ℤ) (u : Bytes) (rows : Table)
    → filter_map (change_row (Statement.refresh c now u)) rows ≡ map (refresh_row c now u) rows
filter_map-refresh c now u rows =
    filter_map_total _ (refresh_row c now u) rows (change_row_refresh c now u)

-- A second refresh with the same count and time changes nothing.
twice :
    (now : ℤ) (counts : Counts) (urls : List Bytes) (r : Row) (c : Option ℤ)
    → find_text counts r.url ≡ c
    → refreshed now counts urls (with_count c now r) ≡ with_count c now r
unfolding refreshed
twice now counts urls r none h = elim (Bool-cases (has_text r.url urls)) [
  | inl there ↦ rw (there, h) refl
  | inr gone ↦ rw gone refl
]
twice now counts urls r (some c) h = elim (Bool-cases (has_text r.url urls)) [
  | inl there ↦ rw (there, h) refl
  | inr gone ↦ rw gone refl
]

refreshed_step :
    (now : ℤ) (counts : Counts) (u : Bytes) (urls : List Bytes) (r : Row)
    → refreshed now counts urls (refresh_row (find_text counts u) now u r)
      ≡ refreshed now counts (u ∷ urls) r
unfolding refreshed
refreshed_step now counts u urls r = elim (Bool-cases (bytes_eq u r.url)) [
  | inl same ↦
      let there : bytes_eq r.url u ≡ true = bytes_eq_sym r.url u ∙ same in
      let at : find_text counts r.url ≡ find_text counts u =
        ap (find_text counts) (bytes_eq_sound r.url u there) in
      rw (there, same, at) (twice now counts urls r (find_text counts u) at)
  | inr other ↦ rw (bytes_eq_sym r.url u ∙ other, other) refl
]

pub map-refreshed :
    (now : ℤ) (counts : Counts) (u : Bytes) (urls : List Bytes) (rows : Table)
    → map (refreshed now counts urls) (map (refresh_row (find_text counts u) now u) rows)
      ≡ map (refreshed now counts (u ∷ urls)) rows
map-refreshed now counts u urls [] = refl
map-refreshed now counts u urls (r ∷ rows) =
    ap₂ ◌∷◌ (refreshed_step now counts u urls r) (map-refreshed now counts u urls rows)

-- A row has the URL.
abbrev pub has_url : Table → Bytes → Bool
has_url rows u = any (λ r. bytes_eq r.url u) rows

ltb-length-keep {ℓ} :
    {A : Type ℓ} (p : A → Bool) (xs : List A) → ltb 0 (length (keep p xs)) ≡ any p xs
ltb-length-keep p [] = refl
ltb-length-keep p (x ∷ xs) = ground (arith, ltb-length-keep p xs)

pub affected_iff :
    (c : Option ℤ) (now : ℤ) (u : Bytes) (rows : Table)
    → ltb 0 (affected (Statement.refresh c now u) rows) ≡ has_url rows u
unfolding affected is_target
affected_iff c now u rows = ltb-length-keep (λ r. bytes_eq r.url u) rows

url-refresh_row :
    (c : Option ℤ) (now : ℤ) (u : Bytes) (r : Row) → (refresh_row c now u r).url ≡ r.url
url-refresh_row none now u r = elim (Bool-cases (bytes_eq r.url u)) [
  | inl e ↦ rw e refl
  | inr e ↦ rw e refl
]
url-refresh_row (some c) now u r = elim (Bool-cases (bytes_eq r.url u)) [
  | inl e ↦ rw e refl
  | inr e ↦ rw e refl
]

pub has_url-refresh :
    (c : Option ℤ) (now : ℤ) (u v : Bytes) (rows : Table)
    → has_url (map (refresh_row c now u) rows) v ≡ has_url rows v
has_url-refresh c now u v [] = refl
has_url-refresh c now u v (r ∷ rows) =
    ap₂ ◌||◌ (ap (λ t. bytes_eq t v) (url-refresh_row c now u r)) (has_url-refresh c now u v rows)
