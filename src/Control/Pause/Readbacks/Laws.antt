-- ===== src/Control/Pause/Readbacks/Laws.antt =====
-- What a verified readback has seen, that a state which settles in time is verified, and how often the
-- loop reads.
use go_patroni.Base.{
  ℕ, zero, suc, ◌+◌, ◌≤◌, ◌<◌, ◌≡◌, refl, ◌∙◌, sym, inl, inr, Bool, true, false, ◌&&◌, none, List,
  [], ◌∷◌, arith, Bool-cases, any, keep,
}
use go_patroni.Base.Result.{ok, Result-cases}
use go_patroni.Texts.{Text, text_eq, eq_of_text_eq}
use go_patroni.Texts.Order.Sorting.{IsAscending, sort_by-IsAscending}
use go_patroni.Dcs.Snapshots.{ClusterState, Snapshot}
use go_patroni.Control.Service.{Service, Trace, call, snapshot, wait_interval, now}
use go_patroni.Control.Service.Costs.{reads}
use go_patroni.Control.Reports.{observe}
use go_patroni.Control.Transition.Selections.Laws.{any-sort_by, any-keep}
use go_patroni.Control.Pause.{PauseIntent}
use go_patroni.Control.Pause.Readbacks.{
  Readback, is_pending, pause_pending_members, pause_matched, read_pause_state, verify_pause_rounds,
  verify_pause_state,
}

any-is_pending :
    (c : ClusterState) (desired : Bool) (name : Text) (names : List Text)
    → any (λ x. text_eq name x && is_pending c desired x) names
      ≡ (any (text_eq name) names && is_pending c desired name)
unfolding any
any-is_pending c desired name [] = refl
any-is_pending c desired name (x ∷ xs) = elim (Bool-cases (text_eq name x)) [
  | inl e ↦ rw (sym (eq_of_text_eq name x e)) (ground (arith, any-is_pending c desired name xs))
  | inr e ↦ ground (arith, any-is_pending c desired name xs)
]

-- A name is reported as pending exactly when it was planned and the cluster has no member of that
-- name in the desired state; the reported names are in ascending order.
pub pause_pending_members-any :
    (c : ClusterState) (planned : List Text) (desired : Bool) (name : Text)
    → (any (text_eq name) (pause_pending_members c planned desired)
        ≡ (any (text_eq name) planned && is_pending c desired name))
      × IsAscending (λ x. x) (pause_pending_members c planned desired)
unfolding pause_pending_members
pause_pending_members-any c planned desired name = (
  any-sort_by _ _ _ ∙ any-keep _ _ _ ∙ any-is_pending c desired name planned,
  sort_by-IsAscending (λ x. x) (keep (is_pending c desired) planned),
)

-- A readback that saw the cluster in the desired state and, for a request that waits, every planned
-- member too.
pub record WasConverged (service : Service) (i : PauseIntent) (planned : List Text) (v : Readback)
    : Type 0 where
  pub state : Snapshot
  pub earlier : Trace
  pub answered : service.on_snapshot earlier i.target ≡ ok state
  pub converged : pause_matched state.cluster i planned ≡ true
  pub revision : v.revision ≡ state.revision
  pub pending : v.pending ≡ []

-- From the `k`-th read of a snapshot on, the cluster is seen in the desired state; no wait is canceled.
pub record Settles (service : Service) (i : PauseIntent) (planned : List Text) (k : ℕ)
    : Type 0 where
  pub waits : (t : Trace) → service.on_wait t ≡ none
  pub settled :
      (t : Trace)
      → k ≤ reads t
      → (s : Snapshot) × (service.on_snapshot t i.target ≡ ok s)
        × (pause_matched s.cluster i planned ≡ true)

module _ (service : Service) (i : PauseIntent) (planned : List Text) where
  read_pause_state-Settles :
      (k : ℕ) (before : Readback) (t : Trace)
      → Settles service i planned k
      → k ≤ reads t
      → (read_pause_state service i planned before t).0.verified ≡ true
  unfolding read_pause_state snapshot call
  read_pause_state-Settles k before t h late =
      let (s, answered, matched) = h.settled t late in rw (answered, read_pause_state) matched

  read_pause_state-reads :
      (before : Readback) (t : Trace)
      → reads (read_pause_state service i planned before t).1 ≡ suc (reads t)
  unfolding read_pause_state snapshot call observe now reads
  read_pause_state-reads before t = elim (Result-cases (service.on_snapshot t i.target)) [
    | inr (e, failed) ↦ rw (failed, read_pause_state) refl
    | inl (s, answered) ↦ rw (answered, read_pause_state) refl
  ]

  module _ (k : ℕ) (h : Settles service i planned k) where
    more :
        (rounds : ℕ) (before : Readback) (t : Trace)
        → k < reads t + suc rounds
        → (read_pause_state service i planned before t).0.verified ≡ false
        → 0 < rounds
    more zero before t enough unseen =
        absurd (ground (arith, read_pause_state-Settles k before t h (omega (arith, enough))))
    more (suc rounds) before t enough unseen = omega arith

    round-Settles :
        (rounds : ℕ) (before : Readback)
        → ((after : Readback) (t : Trace)
            → k < reads t + rounds
            → 0 < rounds
            → (verify_pause_rounds service i planned rounds false after t).0.verified ≡ true)
        → (t : Trace) → k < reads t + suc rounds
        → (verify_pause_rounds service i planned (suc rounds) true before t).0.verified ≡ true
    unfolding verify_pause_rounds
    round-Settles rounds before ih t enough =
        let (after, t') = read_pause_state service i planned before t in
        let counted = read_pause_state-reads before t in
        elim (Bool-cases after.verified) [
          | inl seen ↦ rw (verify_pause_rounds, seen) seen
          | inr unseen ↦
              rw (verify_pause_rounds, unseen)
                (ih after t' (omega (arith, counted, enough)) (more rounds before t enough unseen))
        ]

    verify_pause_rounds-Settles :
        (rounds : ℕ) (first : Bool) (before : Readback) (t : Trace)
        → k < reads t + rounds
        → 0 < rounds
        → (verify_pause_rounds service i planned rounds first before t).0.verified ≡ true
    unfolding verify_pause_rounds wait_interval call reads
    verify_pause_rounds-Settles zero first before t enough some_left =
        absurd (omega (arith, some_left))
    verify_pause_rounds-Settles (suc rounds) true before t enough _ =
        round-Settles rounds before (verify_pause_rounds-Settles rounds false) t enough
    verify_pause_rounds-Settles (suc rounds) false before t enough _ =
        rw (h.waits t, verify_pause_rounds)
          (round-Settles rounds before (verify_pause_rounds-Settles rounds false) _ enough)

    -- Where no wait is canceled and, from the `k`-th snapshot read on, the cluster is seen in the desired
    -- state, with its planned members if the request waits: a verification with at least one attempt
    -- whose attempts reach beyond the `k`-th read succeeds. Earlier reads may fail or show anything.
    pub verify_pause_state-Settles :
        (t : Trace)
        → 0 < service.verification_attempts
        → k < reads t + service.verification_attempts
        → (verify_pause_state service i planned t).0.verified ≡ true
    unfolding verify_pause_state
    verify_pause_state-Settles t some_left enough =
        verify_pause_rounds-Settles service.verification_attempts true _ t enough some_left
