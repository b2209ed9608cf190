-- ===== src/Crdt/Keys.antt =====
-- The keys of internal/crdt/pn_counter.go: how a replica's share of a named counter is filed, and
-- which keys a name owns. The predicate is written out once more in both ResetName methods.
pub mod Ownership
use distributed_counter.Base.{
  Text, ℕ, Bool, ◌||◌, not, [], ◌∷◌, ◌++◌, if◌then◌else◌, codes, text_eq, has_prefix, contains_byte,
}

abbrev pub colon : ℕ
colon = b':'

abbrev pub default_name : Text
default_name = codes "default"

-- name == "" || name == "default"
unfoldable pub is_default : Text → Bool
is_default name = text_eq name [] || text_eq name default_name

-- counterKey
unfoldable pub counter_key : Text → Text → Text
counter_key name node_id = if is_default name then node_id else name ++ (colon ∷ node_id)

-- keyBelongsTo
unfoldable pub key_belongs_to : Text → Text → Bool
key_belongs_to name key =
    if is_default name
    then not (contains_byte key colon) || has_prefix key (default_name ++ (colon ∷ []))
    else has_prefix key (name ++ (colon ∷ []))
