-- ===== src/Tests/Rows.antt =====
-- backend/internal/routinghealth and domain: the theorems on rows, settings and budgets at concrete
-- data.
use simple_up_manage.Prelude.{◌≡◌, refl, false, false, [], arith, HasSome}
use simple_up_manage.Domain.Settings.{normalize}
use simple_up_manage.Domain.Settings.Normal.{IsNormal, normalize-IsNormal}
use simple_up_manage.Domain.Routing.{seconds}
use simple_up_manage.Circuit.Observe.{observe_row}
use simple_up_manage.Circuit.Failures.{Validates, IsFresh, success_closes_iff}
use simple_up_manage.Circuit.Allowance.{granted_among, granted_among-interval}
use simple_up_manage.Tests.Data.{fixed, settings, route, leased_gate, validated}

success_closes_iff_example :
    (HasSome
        (λ r'. r'.is_open ≡ false)
        (observe_row settings (seconds 20100) route "a" validated leased_gate)
      → Validates settings (seconds 20100) route "a" validated leased_gate)
    × (Validates settings (seconds 20100) route "a" validated leased_gate
        → HasSome
            (IsFresh settings (seconds 20100) route "a" validated leased_gate)
            (observe_row settings (seconds 20100) route "a" validated leased_gate))
success_closes_iff_example =
    success_closes_iff settings (seconds 20100) route "a" validated leased_gate refl

normalize-IsNormal_example : IsNormal (normalize (record settings { circuit_cooldown_sec = 9999 }))
normalize-IsNormal_example = normalize-IsNormal (record settings { circuit_cooldown_sec = 9999 })

granted_among-interval_example : granted_among "openai" 20 20 [] ≡ 1
granted_among-interval_example = granted_among-interval "openai" 20 [] (omega arith)
