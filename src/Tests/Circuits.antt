-- ===== src/Tests/Circuits.antt =====
-- backend/internal/routinghealth: the theorems on the tables at concrete gates.
use simple_up_manage.Prelude.{ℕ, ◌≡◌, ◌≤◌, inr, refl, true, false, none, some, arith}
use simple_up_manage.Domain.Routing.{seconds}
use simple_up_manage.Circuit.Store.{ok, err, unavailable, find_circuit, save_circuit, lock}
use simple_up_manage.Circuit.Admission.{admit_request, admit_gate, gate_refuses}
use simple_up_manage.Circuit.Observe.{observe}
use simple_up_manage.Circuit.Budget.{create_budget}
use simple_up_manage.Circuit.Check.{
  claim_check, claim_circuits, claim_row, active_checks, check_limit, key_gate_blocks, conflicting,
  is_checkable,
}
use simple_up_manage.Circuit.Leases.{is_ok, admit_request_exclusive}
use simple_up_manage.Circuit.Claims.{
  claim_check_capacity, claim_check_excludes_requests, admit_request_excludes_checks,
}
use simple_up_manage.Circuit.Sound.{AllSound}
use simple_up_manage.Circuit.Reach.{here, next, admits, observes, Reach-AllSound}
use simple_up_manage.Tests.Data.{
  fixed, settings, sha, route, own, open_gate, open_db, leased_db, ticket, checked_db, validated,
}

admitted : admit_request sha route true (seconds 20000) "a" open_db ≡ ok (leased_db, ticket)
unfolding admit_request admit_gate gate_refuses lock find_circuit save_circuit
admitted = refl

claimed : claim_check 8 own route (some 4) (seconds 20000) "c" open_db ≡ ok checked_db
unfolding claim_check claim_circuits claim_row active_checks check_limit key_gate_blocks conflicting
    is_checkable lock find_circuit save_circuit create_budget
claimed = refl

found_open : find_circuit own open_db.circuits ≡ some open_gate
unfolding find_circuit
found_open = refl

open_db-AllSound : AllSound open_db.circuits
open_db-AllSound = ground arith

Reach-AllSound_example :
    AllSound (observe sha settings (seconds 20100) route "a" validated leased_db).circuits
Reach-AllSound_example =
    Reach-AllSound {F = ℕ} {fl = fixed} {sha = sha} {u = open_db}
      {v = observe sha settings (seconds 20100) route "a" validated leased_db} open_db-AllSound
      (next (next here (admits route true (seconds 20000) "a" admitted))
        (observes settings (seconds 20100) route "a" validated))

admit_request_exclusive_example :
    admit_request sha route true (seconds 20100) "b" leased_db ≡ err unavailable
admit_request_exclusive_example =
    admit_request_exclusive sha route route own true true (seconds 20000) (seconds 20100) "a" "b"
      open_db leased_db ticket open_gate (inr refl) (inr refl) found_open refl admitted
      (omega arith)

claim_check_excludes_requests_example :
    admit_request sha route true (seconds 20040) "b" checked_db ≡ err unavailable
claim_check_excludes_requests_example =
    claim_check_excludes_requests 8 own route (some 4) (seconds 20000) "c" open_db checked_db
      claimed sha route true (seconds 20040) "b" open_gate (inr refl) found_open (omega arith)

admit_request_excludes_checks_example :
    is_ok (claim_check 8 own route none (seconds 20100) "c" leased_db) ≡ false
admit_request_excludes_checks_example =
    admit_request_excludes_checks sha route route own true (seconds 20000) (seconds 20100) "a" "c" 8
      none open_db leased_db ticket open_gate (inr refl) found_open refl admitted (omega arith)

claim_check_capacity_example : active_checks (seconds 20000) checked_db.circuits ≤ check_limit 8
claim_check_capacity_example =
    claim_check_capacity 8 own route (some 4) (seconds 20000) "c" open_db checked_db claimed
