-- ===== src/Lib.antt =====
-- The sales back office of a property developer: units on hold, receipts, commissions and payouts. This
-- library models the core of packages/commission, packages/tax and packages/services (TypeScript on
-- Prisma and decimal.js) and proves what makes it correct.
--
-- How the parts interact. A buyer's unit is put on hold (packages/services/src/holds.ts) along the
-- legal transitions of units (unit-transitions.ts). When it is booked, a cost sheet (cost-sheet.ts) gives
-- the agreement value and the value that commission is paid on, the payment plan (payment-plans.ts)
-- becomes a schedule of demands, and the commission engine (packages/commission), called by the ledger
-- (commission.ts), pays the seller and the uplines. A demand is raised or waived. A receipt for
-- the booking is entered, verified by somebody else, cleared, and allocated to demands
-- (packages/services/src/receipts.ts); clearing it, or paying a demand in full, releases commission.
-- A payout batch (packages/services/src/payouts.ts) pays the released entries, less tax
-- (packages/tax) and recoveries.
--
-- Files.
--   Base, Base/*: the library's names that all files share, Boolean tests, list helpers, and `Result`
--     for code that throws.
--   Decimal, Decimal/Laws: the interface of decimal.js, which is not part of the repository. `Decimal`
--     has the operations that the code calls, `IsExact` what the theorems take from them: exact sums and
--     differences, and comparisons by value. Multiplication, division and rounding stay unspecified.
--   Paise: decimals in hundredths, an instance of both, on which the tests run.
--   Table: a database table with Prisma's findMany, findFirst, count, create and update.
--   Commission/Types, Resolve, Entries, Accrue, Release: types.ts, resolve.ts, accrue.ts, release.ts and
--     clawback.ts of packages/commission/src. `accrue` is the function of that name, its loop over
--     the levels is `add_levels`, the roll-up loop `place`.
--   Inventory/Transitions, Store, HoldExpiry, Holds: unit-transitions.ts and holds.ts. `acquire_hold`,
--     `release_hold`, `extend_hold` and `expire_stale_holds` are the exported functions, each a function
--     from the store before to a result with the store after; `read_release`, `write_hold_release`,
--     `read_extension` and `write_extension` are what two of them read and write.
--   Tax: packages/tax/src/tds.ts.
--   Payouts/Store, Grouping, Prepare, Approve, Export: `prepare_batch`, `approve_batch`, `export_batch`,
--     `get_batch_export_csvs`, `write_off_recovery` and `assert_payout_period_not_open`.
--   Receipts/Store, Release, Demands, Verify, Credit: `enter_receipt`, `verify_receipt`,
--     `clear_receipt`, `allocate_receipt` and `apply_credit_balance_to_new_demand`, with the releases and the
--     demand status that follow from them.
--   CostSheet/Types, Compute: packages/services/src/cost-sheet.ts, `compute_cost_sheet` with its loops
--     `price_tags` and `price_charges`; Totals adds up lines.
--   PaymentPlans/Store, Plans, Schedule, Demands: packages/services/src/payment-plans.ts, over the store of
--     the receipts: `create_payment_plan`, `add_milestone`, `generate_demand_schedule`, `raise_demand`
--     (which applies the booking's credit), `waive_demand` and `get_demands_for_booking`.
--   Ledger/Store, Scope, Accrual, Disputes: packages/services/src/commission.ts: `accrue_commission`, which
--     stores what the engine's `accrue` returns, `raise_dispute`, `resolve_dispute` and `explain_entry`.
--   Bookings/Store, Confirm: `confirm_booking`, which is `confirmBooking` of
--     packages/services/src/bookings.ts up to the commit, and calls the four parts above.
--   Access: row scoping of packages/services/src/rbac.ts, `resolve_accessible_associate_ids` and
--     `get_accessible_associate_ids`.
--   The children of these files prove their properties; */Tests hold concrete runs.
--
-- Conventions. Identifiers, notes, dates and names are numbers, instants are milliseconds. A transaction
-- is a function from store to result: a thrown error discards its writes, as the rollback does.
-- The theorems are about calls that follow one another, each done before the next begins, except those of
-- Inventory/Holds/Reachable and Races. Locks do not make every interleaving such a sequence: `acquireHold`
-- and the sweep lock the unit before they read, `releaseHold` locks it after its read, `extendHold` locks
-- nothing, and `allocateReceipt` locks the receipt and not the demands.
-- Identifiers that the database makes up are arguments. Permissions are read from the catalogue, an
-- argument that stands for `assertPermission`. An index beyond an array gives `undefined`, as in the source.
--
-- Bounds. Every loop is structural recursion over the rows that it visits; the roll-up loop walks the
-- upline chain. Batch and receipt numbers are tried five times, as in the source. There is no other fuel.
--
-- Not modelled: drafting and cancelling bookings, what a confirmation reads of the price list (an
-- argument), price lists, discounts, the collections sweep, associates and
-- grades as services, leads, reports, authentication, mail, the web application; of receipts.ts the
-- bounce, of cost-sheet.ts the reading of a unit's price list, of commission.ts the earnings, the
-- simulation and the listings, whose rows the accrual takes as arguments; bank details and the text of
-- exported files.
pub mod Access
pub mod Base
pub mod Bookings
pub mod Commission
pub mod CostSheet
pub mod PaymentPlans
pub mod Decimal
pub mod Inventory
pub mod Ledger
pub mod Paise
pub mod Payouts
pub mod Receipts
pub mod Table
pub mod Tax
