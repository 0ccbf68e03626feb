-- ===== src/Protocol/Access/Role.antt =====
-- `crates/rustsync-protocol/src/access/role.rs` and `permission.rs`.
use rustsync.Base.{Bool, true, false, ◌&&◌}

pub data WorkspacePermission : Type 0 where
  read_objects write_objects update_head read_devices read_access_history : WorkspacePermission
  manage_devices manage_roles manage_keys : WorkspacePermission

pub data WorkspaceRole : Type 0 where
  owner member : WorkspaceRole

-- The derived `==`
abbrev pub role_eq : WorkspaceRole → WorkspaceRole → Bool
role_eq owner owner = true
role_eq member member = true
role_eq _ _ = false

unfoldable pub allows : WorkspaceRole → WorkspacePermission → Bool
allows owner permission = true
allows member read_objects = true
allows member write_objects = true
allows member update_head = true
allows member read_devices = true
allows member read_access_history = true
allows member _ = false

unfoldable pub can_manage_access : WorkspaceRole → Bool
can_manage_access role = role_eq role owner

unfoldable pub can_sync : WorkspaceRole → Bool
unfolding allows
can_sync role = allows role read_objects && allows role write_objects && allows role update_head
