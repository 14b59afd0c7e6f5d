-- ===== src/Commission/Entries.antt =====
-- packages/commission/src/round.ts, and the rate and the entries of packages/commission/src/accrue.ts.
use desire_mlm_project.Base.{ℕ, none, some, List, map}
use desire_mlm_project.Decimal.{Decimal}
use desire_mlm_project.Commission.Types.{
  RateType, pct_of_base, per_sqft, flat, self, override, GradeRate, ResolvedUplineNode,
  AccrualInput, ChainLink, CommissionEntryResult,
}

abbrev pub snapshot_chain : List ResolvedUplineNode → List ChainLink
snapshot_chain = map λ n. record {
  level = n.level;
  associate_id = n.associate_id;
  code = n.code;
  grade_code = n.grade_code;
}

-- What one booking's entries share.
pub record Frame (D : Type 0) : Type 0 where
  pub input : AccrualInput D
  pub seller_grade_code : ℕ
  pub seller_grade_rank : ℕ
  pub grade_rate : GradeRate D
  pub self_amt : D
  pub upline_chain : List ResolvedUplineNode

module _ {D : Type 0} ⦃d : Decimal D⦄ where
  open d use {hundred, mul, div, to_decimal_places2}

  unfoldable pub round2 : D → D
  round2 value = to_decimal_places2 value

  abbrev pub apply_rate : RateType → D → D → D → D
  apply_rate pct_of_base value base saleable_area = div (mul base value) hundred
  apply_rate per_sqft value base saleable_area = mul saleable_area value
  apply_rate flat value base saleable_area = value

  unfoldable pub apply_grade_rate : GradeRate D → D → D → D
  apply_grade_rate rate = apply_rate rate.rate_type rate.rate_value

  unfoldable pub self_entry : Frame D → CommissionEntryResult D
  self_entry f = record {
    booking_id = input.booking_id;
    scheme_id = input.scheme.scheme_id;
    beneficiary_associate_id = input.seller_associate_id;
    role = self;
    level = 0;
    base_amount = input.commissionable_value;
    gross_amount = self_amt;
    snapshot = record {
      grade_code = seller_grade_code;
      grade_rank = seller_grade_rank;
      rate_type = grade_rate.rate_type;
      rate_value = grade_rate.rate_value;
      seller_commission = self_amt;
      level_pct = none;
      upline_chain = snapshot_chain upline_chain;
      scheme_version = input.scheme.scheme_version;
      compression_mode = input.scheme.compression_mode;
      computed_at = input.computed_at;
    };
    idempotency_key = record {
      key_booking = input.booking_id;
      key_associate = input.seller_associate_id;
      key_level = 0;
      key_scheme = input.scheme.scheme_id;
    };
  }
    where
      open f use {input, seller_grade_code, seller_grade_rank, grade_rate, self_amt, upline_chain}

  unfoldable pub override_entry : Frame D → ResolvedUplineNode → ℕ → D → D → CommissionEntryResult D
  override_entry f candidate level pct override_amt = record {
    booking_id = input.booking_id;
    scheme_id = input.scheme.scheme_id;
    beneficiary_associate_id = candidate.associate_id;
    role = override;
    level = level;
    base_amount = input.commissionable_value;
    gross_amount = override_amt;
    snapshot = record {
      grade_code = candidate.grade_code;
      grade_rank = candidate.grade_rank;
      rate_type = grade_rate.rate_type;
      rate_value = grade_rate.rate_value;
      seller_commission = self_amt;
      level_pct = some pct;
      upline_chain = snapshot_chain upline_chain;
      scheme_version = input.scheme.scheme_version;
      compression_mode = input.scheme.compression_mode;
      computed_at = input.computed_at;
    };
    idempotency_key = record {
      key_booking = input.booking_id;
      key_associate = candidate.associate_id;
      key_level = level;
      key_scheme = input.scheme.scheme_id;
    };
  }
    where
      open f use {input, grade_rate, self_amt, upline_chain}

  unfoldable pub override_amount : Frame D → D → D
  unfolding round2
  override_amount f pct = round2 (div (mul f.self_amt pct) hundred)
