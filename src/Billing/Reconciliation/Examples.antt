-- ===== src/Billing/Reconciliation/Examples.antt =====
-- A list of three transactions of which one was lost, on which the theorem about the report is applied.
use godeye.Prelude.{
  ◌≡◌, refl, true, not, ◌&&◌, none, some, List, [], ◌∷◌, arith, ◌==◌, any, is_some,
}
use godeye.Db.ListTable.{list_table}
use godeye.Billing.Model.{once, Data}
use godeye.Billing.Reconciliation.{PaystackTransaction, Report, charged, missing_of, reconcile}
use godeye.Billing.Reconciliation.Exact.{is_owed, reconcile_exact}
use godeye.Billing.Examples.{tables, fresh}

-- The payment 77 has a row.
abbrev booked : Data tables
unfolding list_table
booked = record fresh {
  payments = (
    record {
      reference = 77;
      org_id = 1;
      event_id = none;
      plan_code = "PRO";
      mode = once;
      paid_until = some 5;
    }
        ∷ [],
    (refl, tt),
  );
}

abbrev answer : List PaystackTransaction
answer =
    record { reference = some 77; success = true; org_id = some 1 }
    ∷ record { reference = some 78; success = true; org_id = some 2 }
    ∷ record { reference = some 79; success = true; org_id = none }
    ∷ []

abbrev report : Report
report = record { checked = 3; missing = 78 ∷ [] }

reconcile_exact_example :
    any (λ m. m == 78) report.missing
    ≡ (any (is_owed 78) answer && not (is_some (tables.payments.find_unique booked.payments 78)))
unfolding list_table reconcile charged missing_of
reconcile_exact_example = reconcile_exact tables booked answer report 78 (omega arith) refl
