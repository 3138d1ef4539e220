-- ===== src/Control/Transition/Spending.antt =====
-- How many writes the parts of an execution make.
pub mod Fallbacks
pub mod Executions
use go_patroni.Base.{inl, inr, Option, none, some, List, [], arith, Bool-cases, Option-cases}
use go_patroni.Texts.{Text}
use go_patroni.Dcs.Snapshots.{Member}
use go_patroni.Control.Types.{Cause, Evidence}
use go_patroni.Control.Service.{
  Service, call, TransitionPayload, Response, PatroniClient, context_error, now,
}
use go_patroni.Control.Service.Runs.{
  posts, dcs_writes, Spends, Spent-trans, Spent-any, Spent-weaken, now-Spends, context_error-Spends,
}
use go_patroni.Control.Reports.{observe}
use go_patroni.Control.Transition.Intents.{Intent, is_failover}
use go_patroni.Control.Transition.Selections.{Selection}
use go_patroni.Control.Transition.Rest.{
  unsent, post_to_failover, post_to_switchover, legacy_answer, call_legacy, after_first_post,
  first_post, call_at, call_with, call_transition_rest, transition_rest_evidence, usable_address,
}

module _ (service : Service) where
  module _ (i : Intent) where
    module _ (client : PatroniClient) where
      first_post-Spends :
          (base : Text) (payload : TransitionPayload)
          → Spends 1 0 (first_post client i base payload)
      unfolding first_post post_to_failover post_to_switchover call posts dcs_writes
      first_post-Spends base payload t = elim (Bool-cases (is_failover i)) [
        | inl e ↦ rw (e, first_post) (record { posted = omega arith; written = omega arith })
        | inr e ↦ rw (e, first_post) (record { posted = omega arith; written = omega arith })
      ]

      call_legacy-Spends :
          (base : Text) (payload : TransitionPayload) (evidence : List Evidence)
          → Spends 1 0 (call_legacy service client i base payload evidence)
      unfolding call_legacy post_to_failover transition_rest_evidence observe now call posts
          dcs_writes
      call_legacy-Spends base payload evidence t = record {
        posted = omega arith;
        written = omega arith;
      }

      after_first_post-Spends :
          (base : Text) (payload : TransitionPayload) (first : Response × Option Cause)
          (evidence : List Evidence)
          → Spends 1 0 (after_first_post service client i base payload first evidence)
      unfolding after_first_post context_error call
      after_first_post-Spends base payload first evidence t =
          elim (Bool-cases (legacy_answer i first.0)) [
            | inr other ↦ rw (other, after_first_post) (Spent-any 1 0 t)
            | inl legacy ↦ elim (Option-cases (service.on_context t)) [
              | inr (e, ended) ↦
                  rw (legacy, ended, after_first_post)
                    (Spent-weaken 0 0 1 0 (omega arith) (omega arith)
                      (context_error-Spends service t))
              | inl running ↦
                  rw (legacy, running, after_first_post)
                    (Spent-trans 0 0 1 0 (context_error-Spends service t)
                      (call_legacy-Spends base payload evidence _))
            ]
          ]

      call_at-Spends :
          (payload : TransitionPayload) (address : Option Text)
          → Spends 2 0 (call_at service client i payload address)
      unfolding call_at transition_rest_evidence unsent observe
      call_at-Spends payload none t =
          Spent-weaken 0 0 2 0 (omega arith) (omega arith) (now-Spends service t)
      call_at-Spends payload (some base) t =
          Spent-trans 1 0 1 0 (first_post-Spends base payload t)
            (Spent-trans 0 0 1 0 (now-Spends service _) (search after_first_post-Spends))

    call_with-Spends :
        (client : Option PatroniClient) (member : Option Member) (payload : TransitionPayload)
        → Spends 2 0 (call_with service client member i payload)
    unfolding call_with unsent observe
    call_with-Spends none member payload t =
        Spent-weaken 0 0 2 0 (omega arith) (omega arith) (now-Spends service t)
    call_with-Spends (some client) none payload t =
        Spent-weaken 0 0 2 0 (omega arith) (omega arith) (now-Spends service t)
    call_with-Spends (some client) (some m) payload t =
        call_at-Spends client payload (usable_address service m) t

    pub call_transition_rest-Spends :
        (sel : Selection) (payload : TransitionPayload)
        → Spends 2 0 (call_transition_rest service i sel payload)
    unfolding call_transition_rest
    call_transition_rest-Spends sel payload t =
        call_with-Spends service.patroni sel.rest_member payload t
