-- ===== src/Dcs/Snapshots.antt =====
-- The decoded state of a cluster, dcs/types.go. The raw entries, the history, the status and the
-- failsafe topology are decoded for display and for other operations; no definition of this
-- development reads them.
use go_patroni.Base.{Option, List, Bool, ℤ}
use go_patroni.Texts.{Text}
use go_patroni.Target.{Target}
use go_patroni.Dcs.Values.{Fields}

pub record MemberData : Type 0 where
  pub api_url : Text
  pub conn_url : Text
  pub state : Text
  pub role : Text
  pub pending_restart : Option Bool
  -- the raw JSON
  pub scheduled_restart : Text
  pub tags : Fields
  pub patroni_version : Text
  pub pause : Option Bool

pub record Member : Type 0 where
  pub name : Text
  pub mod_revision : ℤ
  pub lease : ℤ
  pub member_data : MemberData

pub record Leader : Type 0 where
  pub name : Text
  pub mod_revision : ℤ
  pub lease : ℤ

pub record Failover : Type 0 where
  pub mod_revision : ℤ
  pub leader : Text
  pub candidate : Text
  pub scheduled_at : Text

pub record SyncState : Type 0 where
  pub mod_revision : ℤ
  pub leader : Text
  pub standbys : List Text
  pub quorum : ℤ

pub record ClusterState : Type 0 where
  pub initialize : Text
  pub config : Fields
  pub leader : Option Leader
  pub members : List Member
  pub failover : Option Failover
  pub sync : SyncState

pub record Snapshot : Type 0 where
  pub target : Target
  pub prefix : Text
  pub revision : ℤ
  pub cluster : ClusterState
