-- ===== src/Domain/ApiKey.antt =====
-- internal/domain/api_key/api_key.go: API keys and their validation.
use hateblog_backend.Common.{
  ℕ, Bool, false, not, ◌&&◌, Option, none, some, ltb, ◌==◌, length, Result, ok, ◌>>◌, reject_if,
  Bytes, is_empty,
}
use hateblog_backend.Domain.Tag.{Uuid}
use hateblog_backend.Domain.Entry.{Time}

-- A nil pointer is `none`.
pub record ApiKey : Type 0 where
  pub id : Uuid
  pub key_hash : Bytes
  pub name : Option Bytes
  pub description : Option Bytes
  pub created_at : Time
  pub expires_at : Option Time
  pub created_ip : Option Bytes
  pub created_user_agent : Option Bytes
  pub created_referrer : Option Bytes

-- `Params` of the package has the fields of `APIKey`, in the same order.
abbrev pub Params : Type 0
Params = ApiKey

pub data ApiKeyError : Type 0 where
  key_hash_required : ApiKeyError
  name_too_long : ApiKeyError
  description_too_long : ApiKeyError
  expires_before_created : ApiKeyError

-- `p != nil && len(*p) > most`
unfoldable pub is_longer : Option Bytes → ℕ → Bool
is_longer none most = false
is_longer (some s) most = ltb most (length s)

unfoldable pub expires_before : Option Time → Time → Bool
expires_before none created_at = false
expires_before (some t) created_at = not (created_at == 0) && ltb t created_at

unfoldable pub validate_params : Params → Result ApiKeyError (Unit {0})
validate_params p = do
  reject_if (is_empty p.key_hash) key_hash_required
  reject_if (is_longer p.name 100) name_too_long
  reject_if (is_longer p.description 500) description_too_long
  reject_if (expires_before p.expires_at p.created_at) expires_before_created

unfoldable pub new : Params → Result ApiKeyError ApiKey
new p = do validate_params p; ok p
