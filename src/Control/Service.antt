-- ===== src/Control/Service.antt =====
-- `Service` of control/service.go as the transitions use it: injected dependencies, and code that
-- calls them one after the other.
pub mod Runs
pub mod Costs
use go_patroni.Base.{ℕ, Bool, Option, List, [], ◌∷◌, if◌then◌else◌, ℤ, pos, eqb_ℤ}
use go_patroni.Base.Result.{Result}
use go_patroni.Texts.{Text}
use go_patroni.Texts.Space.{trim_space}
use go_patroni.Target.{Target}
use go_patroni.Version.Range.{VersionRange, audited_patroni_range}
use go_patroni.Dcs.Values.{Fields}
use go_patroni.Dcs.Snapshots.{Snapshot}
use go_patroni.Control.Types.{Time, Cause}
use go_patroni.Control.Platform.{Platform}

-- The payload of Patroni's failover and switchover endpoints; its field `Member` is never set.
pub record TransitionPayload : Type 0 where
  pub leader : Text
  pub candidate : Text
  pub scheduled_at : Text

-- The payload of Patroni's restart endpoint; its field `Role` is never set.
pub record RestartPayload : Type 0 where
  pub schedule : Text
  pub postgres_version : Text
  pub timeout : Text
  pub restart_pending : Option Bool

-- A call that the code makes of an injected dependency.
pub data Call : Type 0 where
  new_id random_id read_clock check_context wait : Call
  read_snapshot : Target → Call
  discover : Text → Text → Call
  post_failover post_switchover : Text → TransitionPayload → Call
  patch_config : Text → Fields → Call
  post_reload delete_restart : Text → Call
  post_restart : Text → RestartPayload → Call
  random_index : ℕ → Call
  write_failover : Target → Text → ℤ → Call

-- The calls made so far, the latest first. What a dependency answers may depend on all of them, so
-- a theorem for every service covers every change of the cluster between the calls.
abbrev pub Trace : Type 0
Trace = List Call

-- `patroni.Response[string]`, less the header and the raw body; the status code is 0 where no response
-- came.
pub record Response : Type 0 where
  pub status_code : ℤ
  pub body : Text

-- `dcs.WriteResult`, less the entries that the transitions do not read.
pub record WriteResult : Type 0 where
  pub applied : Bool
  pub revision : ℤ

-- A Patroni client, and the DCS failover capability; the error may come with a value. Of the answers to
-- a configuration patch, a reload and a restart the program reads the status code only.
pub record PatroniClient : Type 0 where
  pub on_failover : Trace → Text → TransitionPayload → Response × Option Cause
  pub on_switchover : Trace → Text → TransitionPayload → Response × Option Cause
  pub on_patch_config : Trace → Text → Fields → ℤ × Option Cause
  pub on_reload : Trace → Text → ℤ × Option Cause
  pub on_restart : Trace → Text → RestartPayload → ℤ × Option Cause
  pub on_delete_restart : Trace → Text → ℤ × Option Cause

-- `dcs.DiscoveredCluster` as the operations read it.
pub record DiscoveredCluster : Type 0 where
  pub target : Target
  pub revision : ℤ
  pub snapshot : Option Snapshot

pub record FailoverWriter : Type 0 where
  pub on_write : Trace → Target → Text → ℤ → WriteResult × Option Cause

-- `on_context` is `ctx.Err()`, `on_random_id` is `randomOperationID` (it reads the random source).
pub record Service : Type 0 where
  pub os : Platform
  pub on_snapshot : Trace → Target → Result Cause Snapshot
  pub on_discover : Option (Trace → Text → Text → Result Cause (List DiscoveredCluster))
  pub patroni : Option PatroniClient
  pub failover_dcs : Option FailoverWriter
  pub on_clock : Trace → Time
  pub on_new_id : Trace → Text
  pub on_random_id : Trace → Text
  pub on_random_index : Trace → ℕ → ℤ × Option Cause
  pub on_wait : Trace → Option Cause
  pub on_context : Trace → Option Cause
  pub verification_attempts : ℕ
  pub supported_patroni_range : VersionRange

-- Code that makes calls.
abbrev pub Run {ℓ} : Type ℓ → Type ℓ
Run A = Trace → A × Trace

infixl 5 ◌>>=◌
abbrev pub ◌>>=◌ {ℓ κ} : {A : Type ℓ} {B : Type κ} → Run A → (A → Run B) → Run B
◌>>=◌ m f t = f (m t).0 (m t).1

abbrev pub pure {ℓ} : {A : Type ℓ} → A → Run A
pure a t = (a, t)

-- One call: the answer is worked out from the earlier calls.
unfoldable pub call {ℓ} : {A : Type ℓ} → Call → (Trace → A) → Run A
call c answer t = (answer t, c ∷ t)

unfoldable pub now : Service → Run Time
unfolding call
now service = call read_clock (λ t. service.os.utc (service.on_clock t))

unfoldable pub snapshot : Service → Target → Run (Result Cause Snapshot)
unfolding call
snapshot service target = call (read_snapshot target) (λ t. service.on_snapshot t target)

unfoldable pub context_error : Service → Run (Option Cause)
unfolding call
context_error service = call check_context service.on_context

unfoldable pub wait_interval : Service → Run (Option Cause)
unfolding call
wait_interval service = call wait service.on_wait

unfoldable pub random_operation_id : Service → Run Text
unfolding call
random_operation_id service = call random_id service.on_random_id

abbrev pub or_random_id : Service → Text → Run Text
or_random_id service [] = random_operation_id service
or_random_id service (c ∷ value) = pure (c ∷ value)

-- The service's `newOperationID` is never nil (`NewService`).
unfoldable pub operation_id : Service → Run Text
unfolding call random_operation_id
operation_id service = do
  value ← call new_id service.on_new_id
  or_random_id service (trim_space value)

abbrev pub zero_range : VersionRange → Bool
zero_range r = eqb_ℤ r.max.major (pos 0)

unfoldable pub patroni_version_range : Service → VersionRange
patroni_version_range service =
    if zero_range service.supported_patroni_range
    then audited_patroni_range
    else service.supported_patroni_range
