-- ===== src/Store/Keys.antt =====
-- The primary keys of the Space tables: an App, a Space of it, and a hash or a request id.
use unicas.Base.{◌≡◌, ◌↔◌, Bool, true, ◌&&◌, arith}
use unicas.Base.Text.{Text, same, same_iff}
use unicas.Base.Table.{Eq}

-- space-scope.ts
pub record Scope : Type 0 where
  pub app_id : Text
  pub space_id : Text

pub record NodeKey : Type 0 where
  pub scope : Scope
  pub hash : Text

pub record RequestKey : Type 0 where
  pub scope : Scope
  pub request_id : Text

-- The primary key of cas_node_upload_cleanup.
pub record TemporaryKey : Type 0 where
  pub scope : Scope
  pub object_key : Text

abbrev pub same_scope : Scope → Scope → Bool
same_scope a b = same a.app_id b.app_id && same a.space_id b.space_id

pub same_scope_iff : (a b : Scope) → (same_scope a b ≡ true) ↔ (a ≡ b)
same_scope_iff a b = (
  λ h. ground (arith, same_iff a.app_id b.app_id, same_iff a.space_id b.space_id),
  λ h. ground (arith, same_iff a.app_id b.app_id, same_iff a.space_id b.space_id),
)

abbrev pub same_node : NodeKey → NodeKey → Bool
same_node a b = same_scope a.scope b.scope && same a.hash b.hash

pub same_node_iff : (a b : NodeKey) → (same_node a b ≡ true) ↔ (a ≡ b)
same_node_iff a b = (
  λ h. ground (arith, same_scope_iff a.scope b.scope, same_iff a.hash b.hash),
  λ h. ground (arith, same_scope_iff a.scope b.scope, same_iff a.hash b.hash),
)

abbrev pub same_request : RequestKey → RequestKey → Bool
same_request a b = same_scope a.scope b.scope && same a.request_id b.request_id

pub same_request_iff : (a b : RequestKey) → (same_request a b ≡ true) ↔ (a ≡ b)
same_request_iff a b = (
  λ h. ground (arith, same_scope_iff a.scope b.scope, same_iff a.request_id b.request_id),
  λ h. ground (arith, same_scope_iff a.scope b.scope, same_iff a.request_id b.request_id),
)

abbrev pub same_temporary : TemporaryKey → TemporaryKey → Bool
same_temporary a b = same_scope a.scope b.scope && same a.object_key b.object_key

pub same_temporary_iff : (a b : TemporaryKey) → (same_temporary a b ≡ true) ↔ (a ≡ b)
same_temporary_iff a b = (
  λ h. ground (arith, same_scope_iff a.scope b.scope, same_iff a.object_key b.object_key),
  λ h. ground (arith, same_scope_iff a.scope b.scope, same_iff a.object_key b.object_key),
)

instance abbrev pub temporary_key_eq : Eq TemporaryKey
temporary_key_eq = record { beq = same_temporary; beq_iff = same_temporary_iff }

instance abbrev pub node_key_eq : Eq NodeKey
node_key_eq = record { beq = same_node; beq_iff = same_node_iff }

instance abbrev pub request_key_eq : Eq RequestKey
request_key_eq = record { beq = same_request; beq_iff = same_request_iff }

instance abbrev pub text_eq : Eq Text
text_eq = record { beq = same; beq_iff = same_iff }
