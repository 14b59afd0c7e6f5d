-- ===== src/Ledger/Tests.antt =====
-- Entry 11 was released and paid; entry 12 has no release. User 3 audits, user 4 is in finance.
use desire_mlm_project.Base.{
  ℕ, ◌≡◌, refl, true, none, some, Option, [], ◌∷◌, ◌==◌, ◌+◌, arith, inr, ok, err, Result,
  if◌then◌else◌,
}
use desire_mlm_project.Paise.{ℤ, pos, negsuc, paise_decimal, paise_exact}
use desire_mlm_project.Table.{Table, insert}
use desire_mlm_project.Commission.Types.{self, pct_of_base, roll_up, active, SchemeConfig}
use desire_mlm_project.Commission.Entries.{round2, apply_grade_rate, self_entry}
use desire_mlm_project.Commission.Resolve.{grade_as_of, walk, upline_chain_as_of}
use desire_mlm_project.Commission.Accrue.{accrue, frame, add_levels, sum_gross, ceiling}
use desire_mlm_project.Payouts.Store.{accrued, paid, AuditContext}
use desire_mlm_project.Payouts.Grouping.{in_period}
use desire_mlm_project.Ledger.Store.{
  auditor, finance_admin, dismissed, LedgerEntry, LedgerStore, SoldBooking, LedgerCatalogue,
  LedgerError,
}
use desire_mlm_project.Receipts.Store.{on_booking}
use desire_mlm_project.Ledger.Accrual.{AccrueCommissionResult, accrue_commission}
use desire_mlm_project.Ledger.Accrual.Once.{accrue_commission_once}
use desire_mlm_project.Ledger.Disputes.{raise_dispute, resolve_dispute}
use desire_mlm_project.Ledger.Disputes.RoundTrip.{
  dispute_round_trip, dispute_reopens_paid, payout_view,
}

abbrev by_user : ℕ → AuditContext
by_user id = record { org_id = 1; actor_id = some id }

abbrev empty : {A : Type 0} → Table A
empty = record { ids = []; row = λ k. none }

abbrev paid_entry : LedgerEntry ℤ
paid_entry = record {
  org_id = 1;
  booking_id = 51;
  scheme_id = 71;
  beneficiary_associate_id = 8;
  role = self;
  level = 0;
  base_amount = pos 1_000_000;
  gross_amount = pos 50_000;
  status = paid;
  idempotency_key = record { key_booking = 51; key_associate = 8; key_level = 0; key_scheme = 71 };
  accrued_at = 100;
  paid_at = some 200;
}

abbrev waiting_entry : LedgerEntry ℤ
waiting_entry = record paid_entry { booking_id = 52; status = accrued; paid_at = none }

abbrev catalogue : LedgerCatalogue ℤ
catalogue = record {
  booking = λ id. none;
  active_scheme = λ project date. none;
  org_snapshot = λ org. record {
    hierarchy_history = λ id. none;
    grade_history = λ id. none;
    associates = λ id. none;
  };
  role_codes = λ actor. if actor == 3 then auditor ∷ [] else finance_admin ∷ [];
  associate_of_user = λ user. none;
  placements = [];
  may_read = λ actor. true;
  may_resolve = λ actor. actor == 4;
}

abbrev start : LedgerStore ℤ
start = record {
  entries = insert 12 waiting_entry (insert 11 paid_entry empty);
  releases =
      record {
        entry_id = 11;
        trigger_type = 0;
        trigger_ref = 41;
        cumulative_pct = pos 10_000;
        amount = pos 50_000;
        reversed_at = none;
      }
      ∷ [];
  disputes = empty;
  adjustments = empty;
  audit_log = [];
}

abbrev store_or : LedgerStore ℤ → Result LedgerError (LedgerStore ℤ) → LedgerStore ℤ
store_or other (ok s) = s
store_or other (err _) = other

unfoldable held_of : ℕ → LedgerStore ℤ
unfolding raise_dispute
held_of entry_id = store_or start (raise_dispute catalogue start 31 entry_id 99 (by_user 3))

unfoldable after_of : ℕ → LedgerStore ℤ
unfolding held_of resolve_dispute
after_of entry_id = store_or start (
    resolve_dispute catalogue (held_of entry_id) 31 dismissed 61 (some (negsuc 499)) 300
      (by_user 4))

dispute_round_trip_example : (after_of 12).entries.row 12 ≡ some waiting_entry
unfolding after_of
dispute_round_trip_example =
    dispute_round_trip catalogue start (held_of 12) (after_of 12) waiting_entry 31 12 99 (by_user 3)
      dismissed 61 (some (negsuc 499)) 300 (by_user 4) refl (inr (refl, refl)) refl refl

-- The entry that was paid is paid once more by a batch for the period from 0 to 1000.
dispute_reopens_paid_example :
    (reopened : LedgerEntry ℤ) × ((after_of 11).entries.row 11 ≡ some reopened)
    × (in_period 1 0 1000 (payout_view reopened) ≡ true)
unfolding after_of
dispute_reopens_paid_example =
    dispute_reopens_paid catalogue start (held_of 11) (after_of 11) paid_entry 31 11 99 (by_user 3)
      dismissed 61 (some (negsuc 499)) 300 (by_user 4) 0 1000 refl refl refl refl refl refl

-- Booking 53 of seller 8, who earns 1.5 per cent, is confirmed under a scheme that pays at once.
abbrev scheme : SchemeConfig ℤ
scheme = record {
  scheme_id = 71;
  scheme_version = 1;
  max_level = 2;
  compression_mode = roll_up;
  max_total_pct = pos 500;
  grade_rates = record { grade_code = 1; rate_type = pct_of_base; rate_value = pos 150 } ∷ [];
  level_rates = [];
  min_grade_rank = none;
}

abbrev sold : SoldBooking ℤ
sold = record {
  org_id = 1;
  project_id = 5;
  booking_date = 200;
  commissionable_value = pos 100_000_000;
  saleable_area_at_booking = pos 150_000;
  selling_associate_id = 8;
}

abbrev selling : LedgerCatalogue ℤ
selling = record catalogue {
  booking = λ id. some sold;
  active_scheme = λ project date. some (scheme, some on_booking);
  org_snapshot = λ org. record {
    hierarchy_history = λ id. none;
    grade_history = λ id.
        some (record { grade_code = 1; grade_rank = 1; valid_from = 100; valid_to = none } ∷ []);
    associates = λ id. some (record { associate_id = id; code = id; status = active });
  };
}

abbrev accrued_or :
    LedgerStore ℤ × Option (AccrueCommissionResult ℤ)
    → Result LedgerError (LedgerStore ℤ × Option (AccrueCommissionResult ℤ))
    → LedgerStore ℤ × Option (AccrueCommissionResult ℤ)
accrued_or other (ok r) = r
accrued_or other (err _) = other

unfoldable after_accrual : LedgerStore ℤ × Option (AccrueCommissionResult ℤ)
unfolding accrue_commission
after_accrual =
    accrued_or (start, none) (accrue_commission (λ i. 20 + i) selling 53 250 (by_user 4) start)

accrued_store :
    accrue_commission (λ i. 20 + i) selling 53 250 (by_user 4) start
    ≡ ok (after_accrual.0, some (record { scheme_id = 71; entry_count = 1; breakage = pos 0 }))
unfolding after_accrual accrue frame grade_as_of upline_chain_as_of walk add_levels sum_gross
    ceiling self_entry round2 apply_grade_rate
accrued_store = refl

-- The second run comes after the grade's rate was raised to two per cent in the same scheme.
abbrev raised_scheme : SchemeConfig ℤ
raised_scheme = record scheme {
  grade_rates = record { grade_code = 1; rate_type = pct_of_base; rate_value = pos 200 } ∷ [];
}

abbrev selling_later : LedgerCatalogue ℤ
selling_later = record selling {
  active_scheme = λ project date. some (raised_scheme, some on_booking);
}

accrue_commission_once_example :
    (problem : LedgerError) × (accrue_commission
        (λ i. 40 + i)
        selling_later
        53
        260
        (by_user 4)
        after_accrual.0
      ≡ err problem)
accrue_commission_once_example =
    accrue_commission_once (λ i. 20 + i) (λ i. 40 + i) selling selling_later 53 250 260 sold sold
      (by_user 4) (by_user 4) start after_accrual.0 scheme raised_scheme (some on_booking)
      (some on_booking) (λ i. ground arith) refl refl refl refl refl refl accrued_store
