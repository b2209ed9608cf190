-- ===== src/Cluster/Member.antt =====
-- The member and its status, of internal/cluster/membership.go. Instants are numbers of nanoseconds,
-- and the count of suspicions, one for each call, is left unbounded.
use distributed_counter.Base.{Text, ℕ, Bool, true, false, Int64}

pub data Status : Type 0 where
  alive suspect dead left : Status

-- counter.MemberStatus, an open protobuf enum
pub data ProtoStatus : Type 0 where
  member_alive member_suspect member_dead member_left : ProtoStatus
  unknown : ℕ → ProtoStatus

unfoldable pub to_proto : Status → ProtoStatus
to_proto suspect = member_suspect
to_proto dead = member_dead
to_proto left = member_left
to_proto alive = member_alive

unfoldable pub status_from_proto : ProtoStatus → Status
status_from_proto member_suspect = suspect
status_from_proto member_dead = dead
status_from_proto member_left = left
status_from_proto _ = alive

pub record Member : Type 0 where
  pub id : Text
  pub address : Text
  pub status : Status
  pub is_active : Bool
  pub counter_value : Int64
  pub last_heartbeat : ℕ
  pub suspect_count : ℕ
  pub priority : Int64

-- s == StatusAlive
abbrev pub is_alive : Status → Bool
is_alive alive = true
is_alive _ = false

-- setStatus
unfoldable pub set_status : Status → Member → Member
set_status s m = record m { status = s; is_active = is_alive s }
