-- ===== src/Batch/Updater/Kept.antt =====
-- The URLs that are in the table after each statement of `normalizeHTTPURLs`.
use hateblog_backend.Common.{
  ◌≡◌, refl, sym, ap, ◌∙◌, inl, inr, false, not, ◌&&◌, ◌||◌, [], ◌∷◌, arith, Bool-cases, any, ℤ,
  Bytes, bytes_eq, bytes_eq_sound, bytes_eq_other,
}
use hateblog_backend.Batch.Entries.{
  breaks_unique, Table, Statement, filter_map, change_row, change, is_target,
}
use hateblog_backend.Batch.Updater.{HttpEntry}
use hateblog_backend.Batch.Updater.Refresh.{has_url}

-- The table after a statement that succeeds.
abbrev pub after : Statement → Table → Table
after s rows = filter_map (change_row s) rows

-- The rows with the entry's URL are the rows with its identifier.
abbrev pub Matches : HttpEntry → Table → Type 0
Matches e [] = Unit
Matches e (r ∷ rows) = (bytes_eq r.url e.url ≡ bytes_eq r.id e.id) × Matches e rows

pub has_url-set_count :
    (c now : ℤ) (i v : Bytes) (rows : Table)
    → has_url (after (Statement.set_count c now i) rows) v ≡ has_url rows v
unfolding change_row change is_target
has_url-set_count c now i v [] = refl
has_url-set_count c now i v (r ∷ rows) = elim (Bool-cases (bytes_eq r.id i)) [
  | inl same ↦
      rw (filter_map, same) (ap (λ b. bytes_eq r.url v || b) (has_url-set_count c now i v rows))
  | inr other ↦
      rw (filter_map, other) (ap (λ b. bytes_eq r.url v || b) (has_url-set_count c now i v rows))
]

pub has_url-remove :
    (e : HttpEntry) (v : Bytes) (rows : Table)
    → Matches e rows
    → has_url (after (Statement.remove e.id) rows) v ≡ (has_url rows v && not (bytes_eq e.url v))
unfolding change_row change is_target
has_url-remove e v [] m = refl
has_url-remove e v (r ∷ rows) (m, ms) = elim (Bool-cases (bytes_eq r.id e.id)) [
  | inl same ↦
      let at : r.url ≡ e.url = bytes_eq_sound r.url e.url (m ∙ same) in
      rw (filter_map, same) (ground (arith, has_url-remove e v rows ms, ap (λ w. bytes_eq w v) at))
  | inr other ↦
      rw (filter_map, other)
        (ground (arith, has_url-remove e v rows ms, bytes_eq_other r.url e.url v (m ∙ other)))
]

pub has_url-rewrite :
    (e : HttpEntry) (u v : Bytes) (c now : ℤ) (rows : Table)
    → Matches e rows
    → has_url (after (Statement.rewrite u c now e.id) rows) v
      ≡ ((has_url rows v && not (bytes_eq e.url v)) || (has_url rows e.url && bytes_eq u v))
unfolding change_row change is_target
has_url-rewrite e u v c now [] m = refl
has_url-rewrite e u v c now (r ∷ rows) (m, ms) = elim (Bool-cases (bytes_eq r.id e.id)) [
  | inl same ↦
      let at : r.url ≡ e.url = bytes_eq_sound r.url e.url (m ∙ same) in
      rw (filter_map, same)
        (ground (arith, has_url-rewrite e u v c now rows ms, ap (λ w. bytes_eq w v) at, m))
  | inr other ↦
      rw (filter_map, other)
        (ground
          (arith, has_url-rewrite e u v c now rows ms, bytes_eq_other r.url e.url v (m ∙ other), m))
]

pub Matches-set_count :
    (c now : ℤ) (i : Bytes) (f : HttpEntry) (rows : Table)
    → Matches f rows
    → Matches f (after (Statement.set_count c now i) rows)
unfolding change_row change is_target
Matches-set_count c now i f [] m = tt
Matches-set_count c now i f (r ∷ rows) (m, ms) = elim (Bool-cases (bytes_eq r.id i)) [
  | inl same ↦ rw (filter_map, same) (m, Matches-set_count c now i f rows ms)
  | inr other ↦ rw (filter_map, other) (m, Matches-set_count c now i f rows ms)
]

pub Matches-remove :
    (i : Bytes) (f : HttpEntry) (rows : Table)
    → Matches f rows
    → Matches f (after (Statement.remove i) rows)
unfolding change_row change is_target
Matches-remove i f [] m = tt
Matches-remove i f (r ∷ rows) (m, ms) = elim (Bool-cases (bytes_eq r.id i)) [
  | inl same ↦ rw (filter_map, same) (Matches-remove i f rows ms)
  | inr other ↦ rw (filter_map, other) (m, Matches-remove i f rows ms)
]

-- Another entry's row does not get this entry's URL.
pub Matches-rewrite :
    (e f : HttpEntry) (u : Bytes) (c now : ℤ) (rows : Table)
    → bytes_eq e.url f.url ≡ false
    → bytes_eq u f.url ≡ false
    → Matches e rows
    → Matches f rows
    → Matches f (after (Statement.rewrite u c now e.id) rows)
unfolding change_row change is_target
Matches-rewrite e f u c now [] apart new k m = tt
Matches-rewrite e f u c now (r ∷ rows) apart new (k, ks) (m, ms) =
    let rest = Matches-rewrite e f u c now rows apart new ks ms in
    elim (Bool-cases (bytes_eq r.id e.id)) [
      | inl same ↦
          let at : r.url ≡ e.url = bytes_eq_sound r.url e.url (k ∙ same) in
          let not_it : bytes_eq r.id f.id ≡ false = sym m ∙ ap (λ w. bytes_eq w f.url) at ∙ apart in
          rw (filter_map, same) (new ∙ sym not_it, rest)
      | inr other ↦ rw (filter_map, other) (m, rest)
    ]

others_none :
    (e : HttpEntry) (rows : Table)
    → Matches e rows
    → any (λ r. bytes_eq r.url e.url && not (bytes_eq r.id e.id)) rows ≡ false
others_none e [] m = refl
others_none e (r ∷ rows) (m, ms) = ground (arith, others_none e rows ms, m)

free_none :
    (i u : Bytes) (rows : Table)
    → has_url rows u ≡ false
    → any (λ r. bytes_eq r.url u && not (bytes_eq r.id i)) rows ≡ false
free_none i u [] h = refl
free_none i u (r ∷ rows) h = ground (arith, free_none i u rows)

pub breaks_unique_same :
    (e : HttpEntry) (c now : ℤ) (rows : Table)
    → Matches e rows
    → breaks_unique (Statement.rewrite e.url c now e.id) rows ≡ false
unfolding breaks_unique is_target
breaks_unique_same e c now rows m = ground (arith, others_none e rows m)

pub breaks_unique_free :
    (i u : Bytes) (c now : ℤ) (rows : Table)
    → has_url rows u ≡ false
    → breaks_unique (Statement.rewrite u c now i) rows ≡ false
unfolding breaks_unique is_target
breaks_unique_free i u c now rows h = ground (arith, free_none i u rows h)
