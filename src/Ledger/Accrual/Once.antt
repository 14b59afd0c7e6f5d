-- ===== src/Ledger/Accrual/Once.antt =====
-- packages/services/src/commission.ts: a booking accrues once under a scheme, by the key of its
-- seller's entry.
use mathlib.Core.Path.{subst}
use mathlib.Core.Bool.{true≢false}
use desire_mlm_project.Base.{
  ℕ, ◌+◌, ◌≡◌, refl, sym, ap, ◌∙◌, Bool, true, false, not, Option, none, some, List, [], ◌∷◌, ◌++◌,
  ◌==◌, arith, inl, inr, Bool-cases, any, find, length, ltb, ==-refl, Result, ok, err, Result-cases,
  >>=-eq-ok, throw_if->>-eq_ok, ok-injective, or_throw,
}
use desire_mlm_project.Decimal.{Decimal}
use desire_mlm_project.Table.{Table, count, count_from, insert, passes}
use desire_mlm_project.Commission.Types.{
  SchemeConfig, LevelRate, GradeRate, GradeAssignmentRecord, OrgSnapshot, ResolvedUplineNode,
  AccrualInput, AccrualResult, CommissionEntryResult, IdempotencyKey,
}
use desire_mlm_project.Commission.Entries.{Frame, self_entry}
use desire_mlm_project.Commission.Accrue.{
  Misconfigured, Placement, paid, consumed, walked_off, no_rate, accrue, accrue-eq_ok, add_level,
  add_levels, offer, settle, start, frame, frame_of, from_level, place,
}
use desire_mlm_project.Payouts.Store.{AuditContext}
use desire_mlm_project.Receipts.Store.{PayoutMode}
use desire_mlm_project.Ledger.Store.{
  LedgerStore, SoldBooking, LedgerCatalogue, LedgerError, duplicate_accrual,
}
use desire_mlm_project.Ledger.Accrual.{
  AccrueCommissionResult, same_key, has_key, accrual_input, from_engine, ledger_entry, write_entry,
  write_entries, finish_accrual, accrue_under, accrue_commission, is_on_booking,
}

module _ {A : Type 0} (p : A → Bool) where
  -- The row `id` is in the table and passes the test.
  abbrev IsPresent : ℕ → Table A → Type 0
  IsPresent id t = (any (λ k. k == id) t.ids ≡ true) × (passes p (t.row id) ≡ true)

  present-counted :
      (id : ℕ) (row : ℕ → Option A) (ids : List ℕ)
      → any (λ k. k == id) ids ≡ true
      → passes p (row id) ≡ true
      → count_from p row ids == 0 ≡ false
  present-counted id row [] h q = cc
  present-counted id row (k ∷ ids) h q = elim (Bool-cases (k == id)) [
    | inl this ↦
        let equal : k ≡ id = ground arith in
        let counted : passes p (row k) ≡ true = ap (λ t. passes p (row t)) equal ∙ q in ground arith
    | inr other ↦ ground (arith, present-counted id row ids)
  ]

  any-last : (id : ℕ) (ids : List ℕ) → any (λ k. k == id) (ids ++ (id ∷ [])) ≡ true
  any-last id [] = rw (==-refl id) refl
  any-last id (k ∷ ids) = ground (arith, any-last id ids)

  any-append :
      (id new : ℕ) (ids : List ℕ)
      → any (λ k. k == id) ids ≡ true
      → any (λ k. k == id) (ids ++ (new ∷ [])) ≡ true
  any-append id new [] h = cc
  any-append id new (k ∷ ids) h = ground (arith, any-append id new ids)

  insert-IsPresent : (id : ℕ) (a : A) (t : Table A) → p a ≡ true → IsPresent id (insert id a t)
  insert-IsPresent id a t h = (any-last id t.ids, rw (==-refl id) h)

  insert-keeps :
      (id new : ℕ) (a : A) (t : Table A)
      → id == new ≡ false
      → IsPresent id t
      → IsPresent id (insert new a t)
  insert-keeps id new a t other (at, q) = (any-append id new t.ids at, rw other q)

same_key_refl : (key : IdempotencyKey) → same_key key key ≡ true
same_key_refl key =
    rw
      (
        ==-refl key.key_booking,
        ==-refl key.key_associate,
        ==-refl key.key_level,
        ==-refl key.key_scheme,
      )
      refl

module _ {D : Type 0} ⦃d : Decimal D⦄ where
  open d use {is_zero}

  -- The entries begin with the given one.
  abbrev StartsWith : CommissionEntryResult D → List (CommissionEntryResult D) → Type 0
  StartsWith e es = (rest : List (CommissionEntryResult D)) × (es ≡ e ∷ rest)

  append-StartsWith :
      (e last : CommissionEntryResult D) (es : List (CommissionEntryResult D))
      → StartsWith e es
      → StartsWith e (es ++ (last ∷ []))
  append-StartsWith e last es (rest, h) = (rest ++ (last ∷ []), ap (λ t. t ++ (last ∷ [])) h)

  settle-StartsWith :
      (f : Frame D) (r : LevelRate D) (p : Placement) (acc : AccrualResult D)
      (e : CommissionEntryResult D)
      → StartsWith e acc.entries
      → StartsWith e (settle f r p acc).entries
  settle-StartsWith f r (paid n) acc e h = append-StartsWith e _ acc.entries h
  settle-StartsWith f r consumed acc e h = h
  settle-StartsWith f r walked_off acc e h = h

  offer-StartsWith :
      (f : Frame D) (r : LevelRate D) (above : Option (List ResolvedUplineNode))
      (acc : AccrualResult D) (e : CommissionEntryResult D) {after : AccrualResult D}
      → StartsWith e acc.entries
      → offer f r above acc ≡ ok after
      → StartsWith e after.entries
  offer-StartsWith f r none acc e h q = cc
  offer-StartsWith f r (some above) acc e h q =
      subst (λ (t : AccrualResult D). StartsWith e t.entries) (ok-injective q)
        (settle-StartsWith f r (place f.input.scheme above) acc e h)

  add_level-StartsWith :
      (f : Frame D) (r : LevelRate D) (acc : AccrualResult D) (e : CommissionEntryResult D)
      {after : AccrualResult D}
      → StartsWith e acc.entries
      → add_level f r acc ≡ ok after
      → StartsWith e after.entries
  unfolding add_level
  add_level-StartsWith f r acc e {after} h q =
      elim (Bool-cases (is_zero r.pct_of_seller_commission)) [
        | inl nothing ↦
            subst (λ (t : AccrualResult D). StartsWith e t.entries) {x = acc} {y = after}
              (ground arith) h
        | inr due ↦ elim (Bool-cases (ltb (length f.upline_chain) r.level)) [
          | inl too_high ↦
              subst (λ (t : AccrualResult D). StartsWith e t.entries) {x = acc} {y = after}
                (ground arith) h
          | inr there ↦
              offer-StartsWith f r (from_level r.level f.upline_chain) acc e {after = after} h
                (ground arith)
        ]
      ]

  add_levels-StartsWith :
      (f : Frame D) (rs : List (LevelRate D)) (acc : AccrualResult D) (e : CommissionEntryResult D)
      {after : AccrualResult D}
      → StartsWith e acc.entries
      → add_levels f rs acc ≡ ok after
      → StartsWith e after.entries
  unfolding add_levels
  add_levels-StartsWith f [] acc e h q =
      subst (λ (t : AccrualResult D). StartsWith e t.entries) (ok-injective q) h
  add_levels-StartsWith f (r ∷ rs) acc e h q =
      let (mid, added, rest) = >>=-eq-ok (add_level f r acc) _ q in
      add_levels-StartsWith f rs mid e (add_level-StartsWith f r acc e h added) rest

  frame_of-input :
      (input : AccrualInput D) (chain : List ResolvedUplineNode) (g : Option GradeAssignmentRecord)
      {f : Frame D}
      → frame_of input chain g ≡ ok f
      → f.input ≡ input
  frame_of-input input chain none q = cc
  frame_of-input input chain (some g) q =
      let (rate, _, made) =
        >>=-eq-ok
          (or_throw
            (find (λ (r : GradeRate D). r.grade_code == g.grade_code) input.scheme.grade_rates)
            no_rate)
          _ q in
      ap (λ (t : Frame D). t.input) (sym (ok-injective made))

  frame-input :
      (input : AccrualInput D) (org : OrgSnapshot) {f : Frame D}
      → frame input org ≡ ok f
      → f.input ≡ input
  unfolding frame
  frame-input input org q = frame_of-input input _ _ q

  seller_key : AccrualInput D → IdempotencyKey
  seller_key input = record {
    key_booking = input.booking_id;
    key_associate = input.seller_associate_id;
    key_level = 0;
    key_scheme = input.scheme.scheme_id;
  }

  -- The first entry of an accrual has the seller's key.
  accrue-first :
      (input : AccrualInput D) (org : OrgSnapshot) {r : AccrualResult D}
      → accrue input org ≡ ok r
      → (e : CommissionEntryResult D) × StartsWith e r.entries
        × (e.idempotency_key ≡ seller_key input)
  unfolding self_entry seller_key
  accrue-first input org q =
      let (f, framed, looped, _) = accrue-eq_ok input org q in
      (
        self_entry f,
        add_levels-StartsWith f input.scheme.level_rates (start f) (self_entry f) ([], refl) looped,
        ap (λ (t : AccrualInput D). seller_key t) (frame-input input org framed),
      )

  module _ (new_id : ℕ → ℕ) (fresh : (i : ℕ) → new_id 0 == new_id (i + 1) ≡ false) where
    write_entries-keeps :
        (org_id booking_id : ℕ) (at_once : Bool) (now : ℕ) (audit : AuditContext) (index : ℕ)
        (es : List (CommissionEntryResult D)) (s : LedgerStore D) (key : IdempotencyKey)
        {after : LedgerStore D}
        → IsPresent (has_key key) (new_id 0) s.entries
        → write_entries new_id org_id booking_id at_once now audit (index + 1) es s ≡ ok after
        → IsPresent (has_key key) (new_id 0) after.entries
    unfolding write_entries
    write_entries-keeps org_id booking_id at_once now audit index [] s key h q =
        subst (λ (t : LedgerStore D). IsPresent (has_key key) (new_id 0) t.entries) (ok-injective q)
          h
    write_entries-keeps org_id booking_id at_once now audit index (e ∷ es) s key h q =
        let (_, rest) =
          throw_if->>-eq_ok (not (count (has_key e.idempotency_key) s.entries == 0))
            duplicate_accrual _ q in
        write_entries-keeps org_id booking_id at_once now audit (index + 1) es
          (write_entry org_id booking_id at_once now (new_id (index + 1)) e audit s) key
          (insert-keeps (has_key key) (new_id 0) (new_id (index + 1)) _ s.entries (fresh index) h)
          rest

    write_entries-IsPresent :
        (org_id booking_id : ℕ) (at_once : Bool) (now : ℕ) (audit : AuditContext)
        (e : CommissionEntryResult D) (es : List (CommissionEntryResult D)) (s : LedgerStore D)
        {after : LedgerStore D}
        → write_entries new_id org_id booking_id at_once now audit 0 (e ∷ es) s ≡ ok after
        → IsPresent (has_key e.idempotency_key) (new_id 0) after.entries
    unfolding write_entries
    write_entries-IsPresent org_id booking_id at_once now audit e es s q =
        let (_, rest) =
          throw_if->>-eq_ok (not (count (has_key e.idempotency_key) s.entries == 0))
            duplicate_accrual _ q in
        write_entries-keeps org_id booking_id at_once now audit 0 es
          (write_entry org_id booking_id at_once now (new_id 0) e audit s) e.idempotency_key
          (insert-IsPresent (has_key e.idempotency_key) (new_id 0)
            (ledger_entry org_id at_once now e) s.entries (same_key_refl e.idempotency_key))
          rest

  from_engine-eq_ok :
      (m : Result Misconfigured (AccrualResult D)) {r : AccrualResult D}
      → from_engine m ≡ ok r
      → m ≡ ok r
  from_engine-eq_ok (ok r) q = ap ok (ok-injective q)
  from_engine-eq_ok (err problem) q = cc

  -- What a run under a scheme went through.
  accrue_under-eq_ok :
      (new_id : ℕ → ℕ) (c : LedgerCatalogue D) (booking_id now : ℕ) (b : SoldBooking D)
      (audit : AuditContext) (s : LedgerStore D) (scheme : SchemeConfig D)
      (mode : Option PayoutMode) {after : LedgerStore D} {made : Option (AccrueCommissionResult D)}
      → accrue_under new_id c booking_id now b audit s (some (scheme, mode)) ≡ ok (after, made)
      → (r : AccrualResult D) × (mid : LedgerStore D) × (accrue
            (accrual_input booking_id b scheme now)
            (c.org_snapshot b.org_id)
          ≡ ok r)
        × (write_entries new_id b.org_id booking_id (is_on_booking mode) now audit 0 r.entries s
            ≡ ok mid)
        × (after.entries ≡ mid.entries)
  accrue_under-eq_ok new_id c booking_id now b audit s scheme mode q =
      let engine = accrue (accrual_input booking_id b scheme now) (c.org_snapshot b.org_id) in
      let (r, accrued, h) = >>=-eq-ok (from_engine engine) _ q in
      let (mid, wrote, finished) =
        >>=-eq-ok
          (write_entries new_id b.org_id booking_id (is_on_booking mode) now audit 0 r.entries s)
          (finish_accrual booking_id scheme.scheme_id r audit) h in
      (
        r,
        mid,
        from_engine-eq_ok engine accrued,
        wrote,
        sym (
            ap (λ (t : LedgerStore D × Option (AccrueCommissionResult D)). t.0.entries)
              (ok-injective finished)),
      )

  no_second :
      (new_id new_id' : ℕ → ℕ) (c c' : LedgerCatalogue D) (booking_id now later : ℕ)
      (b b' : SoldBooking D) (audit audit' : AuditContext) (s after last : LedgerStore D)
      (scheme scheme' : SchemeConfig D) (mode mode' : Option PayoutMode)
      {made made' : Option (AccrueCommissionResult D)}
      → ((i : ℕ) → new_id 0 == new_id (i + 1) ≡ false)
      → b'.selling_associate_id ≡ b.selling_associate_id
      → scheme'.scheme_id ≡ scheme.scheme_id
      → accrue_under new_id c booking_id now b audit s (some (scheme, mode)) ≡ ok (after, made)
      → accrue_under new_id' c' booking_id later b' audit' after (some (scheme', mode'))
        ≡ ok (last, made')
      → ⊥
  unfolding write_entries seller_key
  no_second new_id new_id' c c' booking_id now later b b' audit audit' s after last scheme scheme'
        mode mode' fresh same_seller same_scheme h h' =
      let (r, mid, accrued, wrote, same) =
        accrue_under-eq_ok new_id c booking_id now b audit s scheme mode h in
      let (r', mid', accrued', wrote', _) =
        accrue_under-eq_ok new_id' c' booking_id later b' audit' after scheme' mode' h' in
      let (e, (rest, first), key) =
        accrue-first (accrual_input booking_id b scheme now) (c.org_snapshot b.org_id) accrued in
      let (e', (rest', first'), key') =
        accrue-first (accrual_input booking_id b' scheme' later) (c'.org_snapshot b'.org_id)
          accrued' in
      let (at, passed) =
        write_entries-IsPresent new_id fresh b.org_id booking_id (is_on_booking mode) now audit e
          rest s
          (ap (λ es. write_entries new_id b.org_id booking_id (is_on_booking mode) now audit 0 es s)
              (sym first)
            ∙ wrote) in
      let same_keys : seller_key (accrual_input booking_id b' scheme' later)
          ≡ seller_key (accrual_input booking_id b scheme now) =
        rw (same_seller, same_scheme) refl in
      let (unused, _) =
        throw_if->>-eq_ok (not (count (has_key e'.idempotency_key) after.entries == 0))
          duplicate_accrual _
          (ap
              (λ es.
                write_entries new_id' b'.org_id booking_id (is_on_booking mode') later audit' 0 es
                  after)
              (sym first')
            ∙ wrote') in
      let present : count (has_key e.idempotency_key) mid.entries == 0 ≡ false =
        present-counted (has_key e.idempotency_key) (new_id 0) mid.entries.row mid.entries.ids at
          passed in
      let moved : count (has_key e'.idempotency_key) after.entries == 0 ≡ false =
        ap (λ k. count (has_key k) after.entries == 0) (key' ∙ same_keys ∙ sym key)
        ∙ ap (λ t. count (has_key e.idempotency_key) t == 0) same
        ∙ present in
      true≢false (sym (ap not moved) ∙ unused)

  -- After an accrual under a scheme every further accrual of the booking that finds the same scheme, in
  -- whatever state its rates, the hierarchy and the clock are by then, is refused, where the booking has
  -- kept its seller and the first row got an identifier of its own.
  pub accrue_commission_once :
      (new_id new_id' : ℕ → ℕ) (c c' : LedgerCatalogue D) (booking_id now later : ℕ)
      (b b' : SoldBooking D) (audit audit' : AuditContext) (s after : LedgerStore D)
      (scheme scheme' : SchemeConfig D) (mode mode' : Option PayoutMode)
      {made : Option (AccrueCommissionResult D)}
      → ((i : ℕ) → new_id 0 == new_id (i + 1) ≡ false)
      → c.booking booking_id ≡ some b
      → c'.booking booking_id ≡ some b'
      → b'.selling_associate_id ≡ b.selling_associate_id
      → c.active_scheme b.project_id b.booking_date ≡ some (scheme, mode)
      → c'.active_scheme b'.project_id b'.booking_date ≡ some (scheme', mode')
      → scheme'.scheme_id ≡ scheme.scheme_id
      → accrue_commission new_id c booking_id now audit s ≡ ok (after, made)
      → (problem : LedgerError) × (accrue_commission new_id' c' booking_id later audit' after
          ≡ err problem)
  unfolding accrue_commission
  accrue_commission_once new_id new_id' c c' booking_id now later b b' audit audit' s after scheme
        scheme' mode mode' {made} fresh found found' same_seller is_scheme is_scheme' same_scheme
        h =
      elim (Result-cases
        (accrue_under new_id' c' booking_id later b' audit' after (some (scheme', mode')))) [
          | inl (problem, refused) ↦ (problem, ground arith)
          | inr ((last, made'), repeated) ↦ absurd (
              no_second new_id new_id' c c' booking_id now later b b' audit audit' s after last
                scheme scheme' mode mode' {made = made} fresh same_seller same_scheme (ground arith)
                repeated)
        ]
