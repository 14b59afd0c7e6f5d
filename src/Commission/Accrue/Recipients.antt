-- ===== src/Commission/Accrue/Recipients.antt =====
-- packages/commission/src/accrue.ts: who is paid.
use mathlib.Core.List.{Memᴰ}
use desire_mlm_project.Base.{
  ◌≡◌, refl, ◌⊎◌, inl, inr, ◌↔◌, true, false, none, some, List, [], ◌∷◌, arith, All, All-append, ok,
  >>=-eq-ok, ok-injective, Option,
}
use desire_mlm_project.Decimal.{Decimal}
use desire_mlm_project.Commission.Types.{
  roll_up, LevelRate, SchemeConfig, ResolvedUplineNode, AccrualInput, AccrualResult,
  CommissionEntryResult, OrgSnapshot,
}
use desire_mlm_project.Commission.Entries.{Frame, self_entry, override_entry, override_amount}
use desire_mlm_project.Commission.Accrue.{
  Placement, paid, consumed, walked_off, is_eligible, place, settle, offer, from_level, add_level,
  add_levels, frame, start, accrue, accrue-eq_ok,
}

module _ {D : Type 0} ⦃d : Decimal D⦄ where
  -- The percentage reaches an upline: the first of the chain if it is eligible, and one further up
  -- only where the scheme rolls up and everybody before is ineligible.
  pub data Reaches (scheme : SchemeConfig D)
      : List ResolvedUplineNode → ResolvedUplineNode → Type 0 where
    first :
        {n : ResolvedUplineNode} {ns : List ResolvedUplineNode}
        → is_eligible n scheme ≡ true
        → Reaches scheme (n ∷ ns) n
    rolled :
        {m n : ResolvedUplineNode} {ns : List ResolvedUplineNode}
        → is_eligible m scheme ≡ false
        → scheme.compression_mode ≡ roll_up
        → Reaches scheme ns n
        → Reaches scheme (m ∷ ns) n

  place-cases :
      (scheme : SchemeConfig D) (m : ResolvedUplineNode) (ns : List ResolvedUplineNode)
      {n : ResolvedUplineNode}
      → place scheme (m ∷ ns) ≡ paid n
      → ((is_eligible m scheme ≡ true) × (m ≡ n))
        ⊎ ((is_eligible m scheme ≡ false)
            × (scheme.compression_mode ≡ roll_up)
            × (place scheme ns ≡ paid n))
  unfolding place
  place-cases scheme m ns {n} e = ground arith

  place-Reaches :
      (scheme : SchemeConfig D) (ns : List ResolvedUplineNode) {n : ResolvedUplineNode}
      → place scheme ns ≡ paid n
      → Reaches scheme ns n
  unfolding place
  place-Reaches scheme [] e = cc
  place-Reaches scheme (m ∷ ns) e = elim (place-cases scheme m ns e) [
    | inl (eligible, same) ↦ rw (← same) (first eligible)
    | inr (ineligible, mode, above) ↦ rolled ineligible mode (place-Reaches scheme ns above)
  ]

  Reaches-place :
      (scheme : SchemeConfig D) {ns : List ResolvedUplineNode} {n : ResolvedUplineNode}
      → Reaches scheme ns n
      → place scheme ns ≡ paid n
  unfolding place
  Reaches-place scheme (first e) = rw e
  Reaches-place scheme (rolled e mode r) = rw (e, mode, place) (Reaches-place scheme r)

  -- The loop pays exactly the upline that the percentage reaches.
  pub place_iff :
      (scheme : SchemeConfig D) (ns : List ResolvedUplineNode) (n : ResolvedUplineNode)
      → (place scheme ns ≡ paid n) ↔ Reaches scheme ns n
  place_iff scheme ns n = (place-Reaches scheme ns, Reaches-place scheme)

  -- An entry that the rules give rise to.
  pub data Earned (f : Frame D) (rates : List (LevelRate D))
      : CommissionEntryResult D → Type 0 where
    own : {e : CommissionEntryResult D} → e ≡ self_entry f → Earned f rates e
    upline :
        {e : CommissionEntryResult D} (r : LevelRate D) (above : List ResolvedUplineNode)
        (n : ResolvedUplineNode)
        → Memᴰ r rates
        → d.is_zero r.pct_of_seller_commission ≡ false
        → from_level r.level f.upline_chain ≡ some above
        → Reaches f.input.scheme above n
        → e
          ≡ override_entry f n r.level r.pct_of_seller_commission
              (override_amount f r.pct_of_seller_commission)
        → Earned f rates e

  module _ (f : Frame D) (rates : List (LevelRate D)) where
    settle-Earned :
        (r : LevelRate D) (above : List ResolvedUplineNode) (p : Placement) (acc : AccrualResult D)
        → place f.input.scheme above ≡ p
        → Memᴰ r rates
        → d.is_zero r.pct_of_seller_commission ≡ false
        → from_level r.level f.upline_chain ≡ some above
        → All (Earned f rates) acc.entries
        → All (Earned f rates) (settle f r p acc).entries
    settle-Earned r above (paid n) acc e m z at h =
        All-append (Earned f rates) acc.entries _ h
          (upline r above n m z at (place-Reaches f.input.scheme above e) refl, tt)
    settle-Earned r above consumed acc e m z at h = h
    settle-Earned r above walked_off acc e m z at h = h

    offer-Earned :
        (r : LevelRate D) (above : Option (List ResolvedUplineNode)) (acc : AccrualResult D)
        {acc' : AccrualResult D}
        → from_level r.level f.upline_chain ≡ above
        → offer f r above acc ≡ ok acc'
        → Memᴰ r rates
        → d.is_zero r.pct_of_seller_commission ≡ false
        → All (Earned f rates) acc.entries
        → All (Earned f rates) acc'.entries
    offer-Earned r none acc at e m z h = cc
    offer-Earned r (some above) acc at e m z h =
        rw (← ok-injective e) (settle-Earned r above _ acc refl m z at h)

    add_level-cases :
        (r : LevelRate D) (acc acc' : AccrualResult D)
        → add_level f r acc ≡ ok acc'
        → (acc ≡ acc')
          ⊎ ((d.is_zero r.pct_of_seller_commission ≡ false)
              × (offer f r (from_level r.level f.upline_chain) acc ≡ ok acc'))
    unfolding add_level
    add_level-cases r acc acc' e = ground arith

    add_levels-Earned :
        (rs : List (LevelRate D)) (acc : AccrualResult D) {acc' : AccrualResult D}
        → ((r : LevelRate D) → Memᴰ r rs → Memᴰ r rates)
        → add_levels f rs acc ≡ ok acc'
        → All (Earned f rates) acc.entries
        → All (Earned f rates) acc'.entries
    unfolding add_levels
    add_levels-Earned [] acc sub e h = rw (← ok-injective e) h
    add_levels-Earned (r ∷ rs) acc sub e h =
        let (mid, first_round, rest) = >>=-eq-ok (add_level f r acc) (add_levels f rs) e in
        add_levels-Earned rs mid (λ q m. sub q (Memᴰ.tail m)) rest
          (elim (add_level-cases r acc mid first_round) [
            | inl same ↦ rw (← same) h
            | inr (z, offered) ↦ offer-Earned r _ acc refl offered (sub r (Memᴰ.head refl)) z h
          ])

  -- Every entry of a successful accrual is the seller's own, or an override of a level of the scheme
  -- with a percentage that is not zero, for an upline whom that level's percentage reaches, of the
  -- level's rounded amount.
  pub accrue-Earned :
      (input : AccrualInput D) (org : OrgSnapshot) {r : AccrualResult D}
      → accrue input org ≡ ok r
      → (f : Frame D) × (frame input org ≡ ok f) × All (Earned f input.scheme.level_rates) r.entries
  accrue-Earned input org e =
      let (f, framed, looped, _) = accrue-eq_ok input org e in
      (
        f,
        framed,
        add_levels-Earned f input.scheme.level_rates input.scheme.level_rates (start f) (λ q m. m)
            looped (own refl, tt),
      )
