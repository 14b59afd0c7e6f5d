-- ===== src/Tax.antt =====
-- packages/tax/src: tax deducted at source.
use desire_mlm_project.Base.{Bool, true, false, Option, none, some}
use desire_mlm_project.Decimal.{Decimal}

pub data EngagementType : Type 0 where
  employee consultant channel_partner : EngagementType

pub data TaxSection : Type 0 where
  sec_192 sec_194j sec_194h : TaxSection

pub record TaxRateInput (D : Type 0) : Type 0 where
  pub rate_pct : D
  pub no_pan_rate_pct : Option D

-- `TDS_SECTION_BY_ENGAGEMENT[engagementType]`
unfoldable pub resolve_tds_section : EngagementType → TaxSection
resolve_tds_section employee = sec_192
resolve_tds_section consultant = sec_194j
resolve_tds_section channel_partner = sec_194h

abbrev pub rate_for : {D : Type 0} → D → Option D → Bool → D
rate_for rate none has_pan = rate
rate_for rate (some no_pan_rate) true = rate
rate_for rate (some no_pan_rate) false = no_pan_rate

unfoldable pub resolve_effective_tds_rate : {D : Type 0} → TaxRateInput D → Bool → D
resolve_effective_tds_rate tax_rate has_pan =
    rate_for tax_rate.rate_pct tax_rate.no_pan_rate_pct has_pan

unfoldable pub compute_tds : {D : Type 0} ⦃d : Decimal D⦄ → D → D → D
compute_tds ⦃d⦄ gross_amount effective_rate_pct =
    d.to_decimal_places2 (d.div (d.mul gross_amount effective_rate_pct) d.hundred)
