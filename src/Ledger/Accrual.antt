-- ===== src/Ledger/Accrual.antt =====
-- packages/services/src/commission.ts: `accrueCommission`. The identifier that the database gives the entry at
-- index i is `new_id i`.
pub mod Once
use desire_mlm_project.Base.{
  ℕ, ◌+◌, Bool, true, false, not, ◌&&◌, Option, none, some, List, [], ◌∷◌, ◌++◌, ◌==◌, length,
  if◌then◌else◌, Result, ok, err, ◌>>=◌, ◌>>◌, or_throw, throw_if,
}
use desire_mlm_project.Decimal.{Decimal}
use desire_mlm_project.Table.{insert, count}
use desire_mlm_project.Commission.Types.{
  SchemeConfig, AccrualInput, AccrualResult, CommissionEntryResult, IdempotencyKey,
}
use desire_mlm_project.Commission.Accrue.{Misconfigured, accrue}
use desire_mlm_project.Payouts.Store.{accrued, payable, AuditContext}
use desire_mlm_project.Receipts.Store.{
  PayoutMode, pro_rata_collection, milestone, on_booking, CommissionRelease,
}
use desire_mlm_project.Ledger.Store.{
  LedgerEntry, entry_created, commission_accrued, LedgerStore, SoldBooking, LedgerCatalogue,
  LedgerError, booking_not_found, duplicate_accrual, misconfigured,
}

-- The number of "BOOKING_CONFIRMED" among the triggers.
abbrev pub booking_confirmed : ℕ
booking_confirmed = 3

abbrev pub is_on_booking : Option PayoutMode → Bool
is_on_booking none = false
is_on_booking (some pro_rata_collection) = false
is_on_booking (some milestone) = false
is_on_booking (some on_booking) = true

abbrev pub same_key : IdempotencyKey → IdempotencyKey → Bool
same_key a b =
    a.key_booking == b.key_booking
    && a.key_associate == b.key_associate
    && a.key_level == b.key_level
    && a.key_scheme == b.key_scheme

abbrev pub from_engine : {A : Type 0} → Result Misconfigured A → Result LedgerError A
from_engine (ok a) = ok a
from_engine (err problem) = err (misconfigured problem)

module _ {D : Type 0} where
  abbrev pub has_key : IdempotencyKey → LedgerEntry D → Bool
  has_key key e = same_key key e.idempotency_key

  abbrev pub accrual_input :
      (booking_id : ℕ) → SoldBooking D → SchemeConfig D → (now : ℕ) → AccrualInput D
  accrual_input booking_id b scheme now = record {
    booking_id = booking_id;
    booking_date = b.booking_date;
    commissionable_value = b.commissionable_value;
    saleable_area_at_booking = b.saleable_area_at_booking;
    scheme = scheme;
    seller_associate_id = b.selling_associate_id;
    computed_at = now;
  }

-- What an accrual returns, where the project has a scheme.
pub record AccrueCommissionResult (D : Type 0) : Type 0 where
  pub scheme_id : ℕ
  pub entry_count : ℕ
  pub breakage : D

module _ {D : Type 0} ⦃d : Decimal D⦄ where
  open d use {hundred, to_decimal_places2}

  abbrev pub ledger_entry :
      (org_id : ℕ) → (at_once : Bool) → (now : ℕ) → CommissionEntryResult D → LedgerEntry D
  ledger_entry org_id at_once now e = record {
    org_id = org_id;
    booking_id = e.booking_id;
    scheme_id = e.scheme_id;
    beneficiary_associate_id = e.beneficiary_associate_id;
    role = e.role;
    level = e.level;
    base_amount = to_decimal_places2 e.base_amount;
    gross_amount = to_decimal_places2 e.gross_amount;
    status = if at_once then payable else accrued;
    idempotency_key = e.idempotency_key;
    accrued_at = now;
    paid_at = none;
  }

  abbrev pub full_release :
      (entry_id booking_id : ℕ) → CommissionEntryResult D → CommissionRelease D
  full_release entry_id booking_id e = record {
    entry_id = entry_id;
    trigger_type = booking_confirmed;
    trigger_ref = booking_id;
    cumulative_pct = hundred;
    amount = to_decimal_places2 e.gross_amount;
    reversed_at = none;
  }

  -- The rows of one entry: the entry, its audit row and, ON_BOOKING, its release.
  abbrev pub write_entry :
      (org_id booking_id : ℕ)
      → (at_once : Bool) → (now entry_id : ℕ) → CommissionEntryResult D
      → AuditContext
      → LedgerStore D
      → LedgerStore D
  write_entry org_id booking_id at_once now entry_id e audit s =
      let row = ledger_entry org_id at_once now e in
      record s {
        entries = insert entry_id row s.entries;
        releases =
            if at_once then s.releases ++ (full_release entry_id booking_id e ∷ []) else s.releases;
        audit_log = s.audit_log ++ ((audit, entry_created entry_id row) ∷ []);
      }

  unfoldable pub write_entries :
      (new_id : ℕ → ℕ) (org_id booking_id : ℕ) (at_once : Bool) (now : ℕ) (audit : AuditContext)
      → (index : ℕ) → List (CommissionEntryResult D)
      → LedgerStore D
      → Result LedgerError (LedgerStore D)
  write_entries new_id org_id booking_id at_once now audit index [] s = ok s
  write_entries new_id org_id booking_id at_once now audit index (e ∷ es) s =
      throw_if (not (count (has_key e.idempotency_key) s.entries == 0)) duplicate_accrual
      >> write_entries new_id org_id booking_id at_once now audit (index + 1) es
          (write_entry org_id booking_id at_once now (new_id index) e audit s)

  abbrev pub finish_accrual :
      (booking_id scheme_id : ℕ)
      → AccrualResult D
      → AuditContext
      → LedgerStore D
      → Result LedgerError (LedgerStore D × Option (AccrueCommissionResult D))
  finish_accrual booking_id scheme_id r audit s =
      let breakage = to_decimal_places2 r.breakage in
      ok (
        record s {
          audit_log =
              s.audit_log
              ++ ((audit, commission_accrued booking_id scheme_id (length r.entries) breakage)
                  ∷ []);
        },
        some
            (record { scheme_id = scheme_id; entry_count = length r.entries; breakage = breakage }),
      )

  -- What is done under a scheme; a project without one accrues nothing.
  abbrev pub accrue_under :
      (new_id : ℕ → ℕ)
      → LedgerCatalogue D
      → (booking_id now : ℕ) → SoldBooking D
      → AuditContext
      → LedgerStore D
      → Option (SchemeConfig D × Option PayoutMode)
      → Result LedgerError (LedgerStore D × Option (AccrueCommissionResult D))
  accrue_under new_id c booking_id now b audit s none = ok (s, none)
  accrue_under new_id c booking_id now b audit s (some (scheme, mode)) =
      from_engine (accrue (accrual_input booking_id b scheme now) (c.org_snapshot b.org_id))
      >>= λ r.
          write_entries new_id b.org_id booking_id (is_on_booking mode) now audit 0 r.entries s
          >>= finish_accrual booking_id scheme.scheme_id r audit

  unfoldable pub accrue_commission :
      (new_id : ℕ → ℕ)
      → LedgerCatalogue D
      → (booking_id now : ℕ) → AuditContext
      → LedgerStore D
      → Result LedgerError (LedgerStore D × Option (AccrueCommissionResult D))
  unfolding write_entries
  accrue_commission new_id c booking_id now audit s = do
    b ← or_throw (c.booking booking_id) booking_not_found
    accrue_under new_id c booking_id now b audit s (c.active_scheme b.project_id b.booking_date)
