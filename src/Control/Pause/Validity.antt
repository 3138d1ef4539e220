-- ===== src/Control/Pause/Validity.antt =====
-- `PauseData.Validate` of control/write_types.go, and what it says of a pause that had nothing to do.
use go_patroni.Base.{
  ◌≡◌, inl, inr, Bool, true, false, ◌&&◌, List, [], ◌∷◌, not, is_negative, arith, Bool-cases,
}
use go_patroni.Texts.{Text}
use go_patroni.Texts.Order.{text_lt}
use go_patroni.Dcs.Snapshots.{Snapshot}
use go_patroni.Control.Types.{Outcome, Evidence, Plan}
use go_patroni.Control.Outcomes.{send_state_valid_or_empty}
use go_patroni.Control.Service.{Service, Trace}
use go_patroni.Control.Writes.{
  MemberWrite, member_write_valid, is_set, verification_known, is_verified_succeeded,
}
use go_patroni.Control.Writes.Members.{member_names_from_targets}
use go_patroni.Control.Pause.{
  PauseIntent, PauseData, pause_success, pause_unknown, set_pause_verification, set_readback,
  set_noop,
}
use go_patroni.Control.Pause.Readbacks.{verify_pause_state}
use go_patroni.Control.Pause.Sending.{decide_by_readback}
use go_patroni.Control.Pause.Execution.{finish_noop, initial_pause_data}

unfoldable pub all_writes_valid : List MemberWrite → Bool
unfolding member_write_valid
all_writes_valid [] = true
all_writes_valid (r ∷ rs) = member_write_valid r && all_writes_valid rs

-- `sort.StringsAreSorted`
unfoldable pub strings_are_sorted : List Text → Bool
unfolding text_lt
strings_are_sorted [] = true
strings_are_sorted (x ∷ []) = true
strings_are_sorted (x ∷ y ∷ ys) = not (text_lt y x) && strings_are_sorted (y ∷ ys)

-- `err == nil` of `PauseData.Validate`
unfoldable pub pause_data_valid : PauseData → Bool
unfolding all_writes_valid strings_are_sorted
pause_data_valid d =
    send_state_valid_or_empty d.rest_send_state
    && (is_set d.rest_send_state
        && (verification_known d.verification
            && (not (is_negative d.dcs_revision)
                && (not (d.noop && not (is_verified_succeeded d.verification))
                    && (all_writes_valid d.results && strings_are_sorted d.pending_members)))))

-- A pause or resume of a cluster that has the desired state already, and whose members are not seen to
-- converge, ends with data that `PauseData.Validate` rejects: a no-op without verified success.
pub finish_noop-pause_data_valid :
    (service : Service) (id : Text) (i : PauseIntent) (p : Plan) (s : Snapshot)
    (evidence : List Evidence) (t : Trace)
    → (finish_noop service id i p s evidence t).0.outcome ≡ Outcome.unknown
    → pause_data_valid (finish_noop service id i p s evidence t).0.payload ≡ false
unfolding finish_noop decide_by_readback pause_success pause_unknown set_pause_verification
    set_readback set_noop initial_pause_data pause_data_valid
finish_noop-pause_data_valid service id i p s evidence t h = elim (Bool-cases i.wait) [
  | inr at_once ↦ absurd (ground (arith, rw (at_once, finish_noop) at h))
  | inl waiting ↦
      let v = (verify_pause_state service i (member_names_from_targets p.targets) t).0 in
      elim (Bool-cases v.verified) [
        | inl seen ↦ absurd (ground (arith, rw (waiting, seen, finish_noop) at h))
        | inr unseen ↦ rw (waiting, unseen, finish_noop) (ground arith)
      ]
]
