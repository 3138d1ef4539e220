-- ===== src/Control/Reload.antt =====
-- Reloading members, control/reload.go: the request, the plan and its check, and the members of a plan
-- found again (`resolvePlannedMembersAcrossSnapshots` of control/citus.go).
pub mod Contract
pub mod Resolution
pub mod Execution
pub mod Safety
use go_patroni.Base.{
  Bool, true, false, Option, none, some, List, [], ◌∷◌, ◌++◌, if◌then◌else◌, is_empty, not, ℤ, pos,
  ltb_ℤ,
}
use go_patroni.Texts.{Text, text, text_eq}
use go_patroni.Texts.Decimal.{atoi}
use go_patroni.Target.{Target, TargetError, normalize, validate}
use go_patroni.Dcs.Values.{Value, value_at, Fields}
use go_patroni.Dcs.Snapshots.{Snapshot}
use go_patroni.Control.Platform.{Platform}
use go_patroni.Control.Writes.Members.{
  Role, role_valid_or_empty, normalize_member_names, with_member, select_members, member_targets,
}

pub record ReloadRequest : Type 0 where
  pub target : Target
  pub members : List Text
  pub role : Role
  pub citus : Bool

pub data ReloadRequestError : Type 0 where
  conflicting_members bad_role : ReloadRequestError
  bad_target : TargetError → ReloadRequestError

-- The normalised request: the target, the requested names, and the error.
pub record ReloadIntent : Type 0 where
  pub target : Target
  pub members : List Text
  pub error : Option ReloadRequestError

-- The target's member does not agree with the list.
unfoldable pub conflicts_with : Text → List Text → Bool
unfolding text_eq
conflicts_with member [] = false
conflicts_with member (name ∷ []) = not (text_eq name member)
conflicts_with member (name ∷ other ∷ names) = true

abbrev after_target : Option TargetError → Role → Option ReloadRequestError
after_target (some e) role = some (bad_target e)
after_target none role = if role_valid_or_empty role then none else some bad_role

unfoldable pub checked_reload : Target → List Text → Role → ReloadIntent
unfolding validate role_valid_or_empty
checked_reload target members role = record {
  target = target;
  members = members;
  error = after_target (validate target true) role;
}

unfoldable pub reload_intent : Target → List Text → Role → ReloadIntent
unfolding conflicts_with with_member checked_reload
reload_intent target members role =
    if is_empty target.member
    then checked_reload target members role
    else if conflicts_with target.member members
    then record { target = target; members = members; error = some conflicting_members }
    else checked_reload (with_member target []) (target.member ∷ []) role

-- `normalizeReloadRequest`
unfoldable pub normalize_reload_request : ReloadRequest → ReloadIntent
unfolding normalize normalize_member_names reload_intent
normalize_reload_request request =
    reload_intent (normalize request.target) (normalize_member_names request.members) request.role

-- `fmt.Sprint(value)` of what could parse as an integer; no other value prints as one.
unfoldable pub sprint : Platform → Value → Text
unfolding text
sprint os (Value.string s) = s
sprint os (Value.number n) = n
sprint os (Value.float bits) = os.sprint_float bits
sprint os _ = text "<nil>"

abbrev positive_or_ten : Option ℤ → ℤ
positive_or_ten none = pos 10
positive_or_ten (some n) = if ltb_ℤ (pos 0) n then n else pos 10

-- `clusterLoopWait`
unfoldable pub cluster_loop_wait : Platform → Fields → ℤ
unfolding value_at sprint atoi text
cluster_loop_wait os configuration =
    positive_or_ten (atoi (sprint os (value_at (text "loop_wait") configuration)))

-- The targets of the members that the snapshots select.
unfoldable pub reload_targets : Platform → Role → List Text → List Snapshot → List Target
unfolding member_targets select_members normalize
reload_targets os role requested [] = []
reload_targets os role requested (s ∷ ss) =
    member_targets (normalize s.target) (select_members os s.cluster role requested true)
    ++ reload_targets os role requested ss
