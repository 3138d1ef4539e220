-- ===== src/Control/Service/Runs.antt =====
-- Rules for what code returns and for the writes that it makes, whatever the dependencies answer.
use go_patroni.Base.{ℕ, suc, ◌+◌, ◌≤◌, [], ◌∷◌, arith}
use go_patroni.Texts.{Text}
use go_patroni.Texts.Space.{trim_space}
use go_patroni.Target.{Target}
use go_patroni.Control.Service.{
  Trace, Run, call, Call, Service, new_id, or_random_id, random_operation_id, now, snapshot,
  context_error, wait_interval, operation_id,
}

-- Every result has the property.
abbrev pub Returns {ℓ κ} : {A : Type ℓ} → (A → Type κ) → Run A → Type κ
Returns P m = (t : Trace) → P (m t).0

-- The calls of Patroni's REST API, at any endpoint, and those that write to the DCS.
unfoldable pub posts : Trace → ℕ
posts [] = 0
posts (Call.post_failover _ _ ∷ t) = suc (posts t)
posts (Call.post_switchover _ _ ∷ t) = suc (posts t)
posts (Call.patch_config _ _ ∷ t) = suc (posts t)
posts (Call.post_reload _ ∷ t) = suc (posts t)
posts (Call.delete_restart _ ∷ t) = suc (posts t)
posts (Call.post_restart _ _ ∷ t) = suc (posts t)
posts (_ ∷ t) = posts t

unfoldable pub dcs_writes : Trace → ℕ
dcs_writes [] = 0
dcs_writes (Call.write_failover _ _ _ ∷ t) = suc (dcs_writes t)
dcs_writes (_ ∷ t) = dcs_writes t

-- At most `p` calls of Patroni and `w` writes to the DCS.
pub record Spent (p w : ℕ) (before after : Trace) : Type 0 where
  pub posted : posts after ≤ posts before + p
  pub written : dcs_writes after ≤ dcs_writes before + w

-- Whatever the dependencies answer.
abbrev pub Spends {ℓ} : {A : Type ℓ} → ℕ → ℕ → Run A → Type 0
Spends p w m = (t : Trace) → Spent p w t (m t).1

pub Spent-trans :
    (p w q v : ℕ) {t t' t'' : Trace}
    → Spent p w t t'
    → Spent q v t' t''
    → Spent (p + q) (w + v) t t''
Spent-trans p w q v {t} {t'} {t''} a b = record {
  posted = omega (arith, a.posted, b.posted);
  written = omega (arith, a.written, b.written);
}

pub Spent-any : (p w : ℕ) (t : Trace) → Spent p w t t
Spent-any p w t = record { posted = omega arith; written = omega arith }

pub Spent-weaken : (p w q v : ℕ) {t t' : Trace} → p ≤ q → w ≤ v → Spent p w t t' → Spent q v t t'
Spent-weaken p w q v {t} {t'} a b h = record {
  posted = omega (arith, h.posted);
  written = omega (arith, h.written);
}

module _ (service : Service) where
  pub now-Spends : Spends 0 0 (now service)
  unfolding now call posts dcs_writes
  now-Spends t = record { posted = omega arith; written = omega arith }

  pub snapshot-Spends : (target : Target) → Spends 0 0 (snapshot service target)
  unfolding snapshot call posts dcs_writes
  snapshot-Spends target t = record { posted = omega arith; written = omega arith }

  pub context_error-Spends : Spends 0 0 (context_error service)
  unfolding context_error call posts dcs_writes
  context_error-Spends t = record { posted = omega arith; written = omega arith }

  pub wait_interval-Spends : Spends 0 0 (wait_interval service)
  unfolding wait_interval call posts dcs_writes
  wait_interval-Spends t = record { posted = omega arith; written = omega arith }

  or_random_id-Spends : (value : Text) → Spends 0 0 (or_random_id service value)
  unfolding random_operation_id call posts dcs_writes
  or_random_id-Spends [] t = record { posted = omega arith; written = omega arith }
  or_random_id-Spends (c ∷ value) t = Spent-any 0 0 t

  pub operation_id-Spends : Spends 0 0 (operation_id service)
  unfolding operation_id call posts dcs_writes
  operation_id-Spends t =
      Spent-trans 0 0 0 0 {t = t} {t' = new_id ∷ t}
        (record { posted = omega arith; written = omega arith })
        (or_random_id-Spends (trim_space (service.on_new_id t)) (new_id ∷ t))
