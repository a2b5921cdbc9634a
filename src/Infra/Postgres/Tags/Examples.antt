-- ===== src/Infra/Postgres/Tags/Examples.antt =====
-- An upsert of a tag, and one of a blank name.
use hateblog_backend.Common.{◌≡◌, refl, ◌≢◌, ◌⊎◌, some, [], ◌∷◌, ok, err, Bytes, codes, trim_space}
use hateblog_backend.Domain.Tag.{Tag, normalize_name}
use hateblog_backend.Infra.Postgres.Tags.{
  name_required, find_by_name, find_by_id, get_by_name, insert_tag, upsert,
}
use hateblog_backend.Infra.Postgres.Tags.Upserted.{upsert_lem}

abbrev same : Bytes → Bytes
same s = s

abbrev given : Tag
given = record { id = 0; name = codes " go" }

abbrev stored : Tag
stored = record { id = 9; name = codes "go" }

upserted : (upsert same 9 (some given) []).0 ≡ ok stored
unfolding upsert insert_tag find_by_name find_by_id normalize_name trim_space
upserted = refl

blank_stored :
    (upsert same 9 (some (record { id = 0; name = codes " " })) []).1
    ≡ record { id = 9; name = [] } ∷ []
unfolding upsert insert_tag find_by_name find_by_id normalize_name trim_space
blank_stored = refl

upsert_lem_example :
    let table = (upsert same 9 (some given) []).1 in
    (stored.name ≡ normalize_name same given.name)
    × (((normalize_name same given.name ≢ []) × (get_by_name same given.name table ≡ ok stored))
        ⊎ ((normalize_name same given.name ≡ [])
            × (find_by_name (normalize_name same given.name) table ≡ some stored)
            × (get_by_name same given.name table ≡ err name_required)
            × ((name : Bytes) → get_by_name same name table ≢ ok stored)))
upsert_lem_example = upsert_lem same 9 given stored [] upserted
