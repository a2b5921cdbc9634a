-- ===== src/Domain/Tag.antt =====
-- internal/domain/tag/tag.go: tags and the normal form of their names.
pub mod Truncation
pub mod Names
pub mod Examples
use Prim.Native.Nat.{bit_and}
use hateblog_backend.Common.{
  ℕ, zero, suc, Bool, true, false, not, Bytes, Option, none, some, Result, ok, err, reject_if,
  ◌>>=◌, ◌>>◌, trim_space, length, take, get_elem?, is_empty, ltb, leb, ◌==◌, if◌then◌else◌, [],
}

-- `(b & 0xC0) == 0x80`
unfoldable pub is_continuation : ℕ → Bool
is_continuation b = bit_and b 0xC0 == 0x80

-- `(s[i] & 0xC0) != 0x80`. The loop reads inside the text only, since `maxBytes < len(s)`.
starts_rune : Bytes → ℕ → Bool
starts_rune s i = elim (get_elem? s i) [ none ↦ false | some b ↦ not (is_continuation b) ]

-- The loop `for i := maxBytes; i > 0; i--`.
cut_back : Bytes → ℕ → Bytes
cut_back s zero = []
cut_back s (suc i) =
    let earlier = cut_back s i in if starts_rune s (suc i) then take (suc i) s else earlier

unfoldable pub truncate_utf8 : Bytes → ℕ → Bytes
unfolding cut_back starts_rune is_continuation
truncate_utf8 s max_bytes = if leb (length s) max_bytes then s else cut_back s max_bytes

abbrev pub max_name : ℕ
max_name = 255

-- `to_lower` is strings.ToLower, whose tables belong to Unicode.
unfoldable pub normalize_name : (Bytes → Bytes) → Bytes → Bytes
normalize_name to_lower name =
    let normalized = to_lower (trim_space name) in
    if ltb max_name (length normalized) then truncate_utf8 normalized max_name else normalized

-- A uuid.UUID; `uuid.Nil` is 0.
abbrev pub Uuid : Type 0
Uuid = ℕ

pub record Tag : Type 0 where
  pub id : Uuid
  pub name : Bytes

pub data TagError : Type 0 where
  name_required : TagError

unfoldable pub new : (Bytes → Bytes) → Uuid → Bytes → Result TagError Tag
new to_lower id name = do
  let norm = normalize_name to_lower name
  reject_if (is_empty norm) name_required
  ok (record { id = id; name = norm })
