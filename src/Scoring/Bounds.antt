-- ===== src/Scoring/Bounds.antt =====
-- Each factor of a score lies between 0 and 1, whatever the data, NaN and infinities included.
use event_time_mcdm_agent.Common.{ℕ, ◌≡◌, subst, sym, arith, ◌<◌, ◌≤◌}
use event_time_mcdm_agent.Float.{Float, ◌≼◌, ◌≺◌, IsFinite, zero_f, one_f, min_f, max_f}
use event_time_mcdm_agent.Float.Laws.{IsIeee}
use event_time_mcdm_agent.Config.{Config}
use event_time_mcdm_agent.Scoring.{
  normalize, apy_factor, risk_factor, cost_factor, stability_factor, score_protocol,
}

module _ {F : Type 0} ⦃f : Float F⦄ where
  abbrev pub IsUnit : F → Type 0
  IsUnit x = (zero_f ≼ x) × (x ≼ one_f)

  -- `clamped` of `normalize`, from 0.
  unfoldable pub clamp : F → F → F
  clamp value hi = max_f zero_f (min_f value hi)

  module _ (laws : IsIeee F) where
    open laws use {
      le_trans, le_total, le_number, lt_iff_le, finite_number, finite_between, sub_number,
      div_number, sub_le, div_le, sub_self, sub_zero, zero_div, div_self, round_le, round_zero,
      round_one, ratio_finite, ratio_le,
    }

    pub zero-IsFinite : IsFinite {F = F} zero_f
    zero-IsFinite = ratio_finite 0 1 (omega arith) (omega arith)

    pub one-IsFinite : IsFinite {F = F} one_f
    one-IsFinite = ratio_finite 1 1 (omega arith) (omega arith)

    pub zero-le-one : ◌≼◌ {F = F} zero_f one_f
    zero-le-one = ratio_le 0 1 1 1 (omega arith) (omega arith) (omega arith)

    pub clamp_bounds :
        (value hi : F)
        → IsFinite hi
        → zero_f ≺ hi
        → (zero_f ≼ clamp value hi) × (clamp value hi ≼ hi)
    unfolding clamp min_f max_f
    clamp_bounds value hi fin p = ground (
      arith,
      lt_iff_le zero_f hi,
      lt_iff_le hi value,
      lt_iff_le zero_f value,
      le_number zero_f hi,
      le_number zero_f value,
      le_number hi hi,
      le_total hi value,
      finite_number zero_f zero-IsFinite,
    )

    pub clamp-IsFinite : (value hi : F) → IsFinite hi → zero_f ≺ hi → IsFinite (clamp value hi)
    clamp-IsFinite value hi fin p =
        let (low, high) = clamp_bounds value hi fin p in
        finite_between zero_f (clamp value hi) hi zero-IsFinite fin low high

    -- From 0 `normalize` divides the clamped value by the limit.
    pub normalize-eq-div :
        (value hi : F)
        → IsFinite hi
        → zero_f ≺ hi
        → normalize value zero_f hi ≡ f.div (clamp value hi) hi
    unfolding normalize clamp
    normalize-eq-div value hi fin p = ground (
      arith,
      lt_iff_le zero_f hi,
      sub_zero hi fin,
      sub_zero (clamp value hi) (clamp-IsFinite value hi fin p),
    )

    pub normalize-IsUnit :
        (value hi : F) → IsFinite hi → zero_f ≺ hi → IsUnit (normalize value zero_f hi)
    normalize-IsUnit value hi fin p =
        let c = clamp value hi in
        let (low, high) = clamp_bounds value hi fin p in
        let c_fin = clamp-IsFinite value hi fin p in
        let c_num = div_number c hi c_fin fin p in
        let zero_num = div_number zero_f hi zero-IsFinite fin p in
        let hi_num = div_number hi hi fin fin p in
        let refl_zero = finite_number zero_f zero-IsFinite in
        subst IsUnit (sym (normalize-eq-div value hi fin p)) (
          subst (λ x. x ≼ f.div c hi) (zero_div hi fin p)
              (div_le zero_f c hi refl_zero low p zero_num c_num),
          subst (λ x. f.div c hi ≼ x) (div_self hi fin p) (div_le c hi hi low high p c_num hi_num),
        )

    -- 1.0 - x for x between 0 and 1.
    pub complement-IsUnit : (x : F) → IsUnit x → IsUnit (f.sub one_f x)
    complement-IsUnit x (low, high) =
        let fin = finite_between zero_f x one_f zero-IsFinite one-IsFinite low high in
        let one_num = finite_number one_f one-IsFinite in
        let num = sub_number one_f x one_num fin in
        (
          subst (λ y. y ≼ f.sub one_f x) (sub_self one_f one-IsFinite)
              (sub_le one_f one_f one_f x one_num high (sub_number one_f one_f one_num one-IsFinite)
                num),
          subst (λ y. f.sub one_f x ≼ y) (sub_zero one_f one-IsFinite)
              (sub_le one_f one_f x zero_f one_num low num
                (sub_number one_f zero_f one_num zero-IsFinite)),
        )

    pub round-IsUnit : (x : F) → IsUnit x → IsUnit (f.round x 4)
    round-IsUnit x (low, high) = (
      subst (λ y. y ≼ f.round x 4) round_zero (round_le zero_f x 4 low),
      subst (λ y. f.round x 4 ≼ y) round_one (round_le x one_f 4 high),
    )

    -- The limits that `score_protocol` divides by.
    pub limit-IsPositive :
        (n d : ℕ)
        → 0 < n
        → n ≤ 100
        → 0 < d
        → d ≤ 100
        → IsFinite (f.ratio n d) × (zero_f ≺ f.ratio n d)
    limit-IsPositive n d p q r s =
        (ratio_finite n d (omega arith) r, laws.ratio_pos n d p r (omega arith))

    pub apy_factor-IsUnit : (apy : F) → IsUnit (apy_factor apy)
    unfolding apy_factor
    apy_factor-IsUnit apy =
        let (fin, p) =
          limit-IsPositive 20 100 (omega arith) (omega arith) (omega arith) (omega arith) in
        normalize-IsUnit apy (f.ratio 20 100) fin p

    pub risk_factor-IsUnit : (utilization : F) → IsUnit (risk_factor utilization)
    unfolding risk_factor
    risk_factor-IsUnit utilization =
        let (fin, p) =
          limit-IsPositive 1 1 (omega arith) (omega arith) (omega arith) (omega arith) in
        complement-IsUnit _ (normalize-IsUnit utilization one_f fin p)

    pub cost_factor-IsUnit : (gas : F) → IsUnit (cost_factor gas)
    unfolding cost_factor
    cost_factor-IsUnit gas =
        let (fin, p) =
          limit-IsPositive 1 100 (omega arith) (omega arith) (omega arith) (omega arith) in
        complement-IsUnit _ (normalize-IsUnit gas (f.ratio 1 100) fin p)

    pub stability_factor-IsUnit : (delta : F) → IsUnit (stability_factor delta)
    unfolding stability_factor
    stability_factor-IsUnit delta =
        let (fin, p) =
          limit-IsPositive 30 100 (omega arith) (omega arith) (omega arith) (omega arith) in
        complement-IsUnit _ (normalize-IsUnit (max_f zero_f (f.neg delta)) (f.ratio 30 100) fin p)

    -- The four factor scores lie between 0 and 1 for every input, NaN and infinities included.
    pub score_protocol_bounds :
        (config : Config F) (apy utilization gas_cost_eth tvl_delta_pct : F)
        → let s = score_protocol config apy utilization gas_cost_eth tvl_delta_pct in
          IsUnit s.apy_score × IsUnit s.risk_score × IsUnit s.cost_score × IsUnit s.stability_score
    unfolding score_protocol
    score_protocol_bounds config apy utilization gas_cost_eth tvl_delta_pct = (
      round-IsUnit _ (apy_factor-IsUnit apy),
      round-IsUnit _ (risk_factor-IsUnit utilization),
      round-IsUnit _ (cost_factor-IsUnit gas_cost_eth),
      round-IsUnit _ (stability_factor-IsUnit tvl_delta_pct),
    )
