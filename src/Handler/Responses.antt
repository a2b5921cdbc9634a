-- ===== src/Handler/Responses.antt =====
-- The responses of internal/infra/handler: writeJSON and writeError of entry_handler.go,
-- cache_header.go, and the form of an entry. A response is its status, the headers X-Cache and
-- Content-Type, and the value that is encoded; the text of an error is the error itself. Logging is
-- left out, and url.Parse is a parameter.
use hateblog_backend.Common.{
  ℕ, Bool, Option, none, some, List, [], ◌++◌, map, leb, ◌==◌, if◌then◌else◌, ℤ, Bytes, codes,
  is_empty,
}
use hateblog_backend.Domain.Tag.{Uuid}
use hateblog_backend.Domain.Entry.{Time, Entry}
use hateblog_backend.Handler.Paths.{join_api_path}

-- What writeError puts under "error".
pub data Message (E : Type 0) : Type 0 where
  internal_error : Message E
  text : E → Message E

pub data Body (E B : Type 0) : Type 0 where
  failure : Message E → Body E B
  payload : B → Body E B

pub record Headers : Type 0 where
  pub cache_status : Bytes
  pub content_type : Bytes

pub record Response (E B : Type 0) : Type 0 where
  pub status : ℕ
  pub headers : Headers
  pub body : Body E B

abbrev pub no_headers : Headers
no_headers = record { cache_status = []; content_type = [] }

abbrev pub cache_status_hit : Bytes
cache_status_hit = codes "HIT"

abbrev pub cache_status_miss : Bytes
cache_status_miss = codes "MISS"

unfoldable pub set_cache_status_header : Headers → Bool → Headers
set_cache_status_header h hit =
    if hit
    then record h { cache_status = cache_status_hit }
    else record h { cache_status = cache_status_miss }

unfoldable pub write_json : {E B : Type 0} → Headers → ℕ → Body E B → Response E B
write_json h status body =
    let typed : Headers = record h { content_type = codes "application/json" } in
    record {
      status = status;
      headers =
          if is_empty typed.cache_status
          then record typed { cache_status = cache_status_miss }
          else typed;
      body = body;
    }

-- `err` is never nil where the handlers call it.
unfoldable pub error_message : {E : Type 0} → ℕ → E → Message E
error_message status e =
    let message = if status == 400 then text e else internal_error in
    if leb 500 status then internal_error else message

unfoldable pub write_error : {E B : Type 0} → Headers → ℕ → E → Response E B
unfolding write_json error_message
write_error h status e = write_json h status (failure (error_message status e))

pub record EntryTagResponse : Type 0 where
  pub tag_id : Uuid
  pub name : Bytes
  pub score : ℤ

pub record EntryResponse : Type 0 where
  pub id : Uuid
  pub title : Bytes
  pub url : Bytes
  pub posted_at : Time
  pub bookmark_count : ℤ
  pub excerpt : Option Bytes
  pub subject : Option Bytes
  pub tags : List EntryTagResponse
  pub favicon_url : Bytes
  pub created_at : Time
  pub updated_at : Time

-- `parse_url` gives the fields Host and Hostname() of url.Parse.
module _ (parse_url : Bytes → Option (Bytes × Bytes)) (api_base_path : Bytes) where
  unfoldable pub build_favicon_url : Bytes → Bytes
  build_favicon_url raw = elim (parse_url raw) [
    | none ↦ []
    | some (host, hostname) ↦
        if is_empty host
        then []
        else join_api_path api_base_path (codes "favicons") ++ (codes "?domain=" ++ hostname)
  ]

  present : Bytes → Option Bytes
  present s = if is_empty s then none else some s

  unfoldable pub to_entry_response : Entry → EntryResponse
  unfolding build_favicon_url present
  to_entry_response ent = record {
    id = ent.id;
    title = ent.title;
    url = ent.url;
    posted_at = ent.posted_at;
    bookmark_count = ent.bookmark_count;
    excerpt = present ent.excerpt;
    subject = present ent.subject;
    tags = map (λ t. record { tag_id = t.tag_id; name = t.name; score = t.score }) ent.tags;
    favicon_url = build_favicon_url ent.url;
    created_at = ent.created_at;
    updated_at = ent.updated_at;
  }
