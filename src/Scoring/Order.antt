-- ===== src/Scoring/Order.antt =====
-- Better data never lower a score.
use event_time_mcdm_agent.Common.{subst, arith}
use event_time_mcdm_agent.Float.{Float, ◌≼◌, ◌≺◌, IsFinite, IsNumber, zero_f, one_f, min_f, max_f}
use event_time_mcdm_agent.Float.Laws.{IsIeee}
use event_time_mcdm_agent.Config.{Config}
use event_time_mcdm_agent.Scoring.{
  normalize, apy_factor, risk_factor, cost_factor, stability_factor, total, score_protocol,
}
use event_time_mcdm_agent.Scoring.Bounds.{
  IsUnit, clamp, zero-IsFinite, one-IsFinite, clamp_bounds, clamp-IsFinite, normalize-eq-div,
  normalize-IsUnit, limit-IsPositive, apy_factor-IsUnit, risk_factor-IsUnit, cost_factor-IsUnit,
  stability_factor-IsUnit,
}

module _ {F : Type 0} ⦃f : Float F⦄ where
  -- The weights are finite and not negative.
  pub record IsWeighted (config : Config F) : Type 0 where
    pub apy : IsFinite config.weight_apy × (zero_f ≼ config.weight_apy)
    pub risk : IsFinite config.weight_risk × (zero_f ≼ config.weight_risk)
    pub cost : IsFinite config.weight_cost × (zero_f ≼ config.weight_cost)
    pub stability : IsFinite config.weight_stability × (zero_f ≼ config.weight_stability)

  module _ (laws : IsIeee F) where
    open laws use {
      le_trans, le_total, le_number, lt_iff_le, finite_number, finite_between, sub_number,
      div_number, add_number, mul_number, neg_number, sub_le, div_le, mul_le, add_le, neg_le,
      mul_one, zero_mul_zero, round_le,
    }

    max_zero_mono : (x y : F) → x ≼ y → max_f zero_f x ≼ max_f zero_f y
    unfolding max_f
    max_zero_mono x y h = ground (
      arith,
      lt_iff_le zero_f x,
      lt_iff_le zero_f y,
      le_number x y,
      le_total zero_f x,
      le_total zero_f y,
      le_trans x y zero_f,
      finite_number zero_f (zero-IsFinite laws),
    )

    min_mono : (x y hi : F) → IsNumber hi → x ≼ y → min_f x hi ≼ min_f y hi
    unfolding min_f
    min_mono x y hi n h = ground (
      arith,
      lt_iff_le hi x,
      lt_iff_le hi y,
      le_number x y,
      le_total hi x,
      le_total hi y,
      le_trans hi x y,
    )

    clamp_mono : (x y hi : F) → IsNumber hi → x ≼ y → clamp x hi ≼ clamp y hi
    unfolding clamp
    clamp_mono x y hi n h = max_zero_mono (min_f x hi) (min_f y hi) (min_mono x y hi n h)

    normalize_mono :
        (x y hi : F)
        → IsFinite hi
        → zero_f ≺ hi
        → x ≼ y
        → normalize x zero_f hi ≼ normalize y zero_f hi
    normalize_mono x y hi fin p h =
        let x_fin = clamp-IsFinite laws x hi fin p in
        let y_fin = clamp-IsFinite laws y hi fin p in
        rw (normalize-eq-div laws x hi fin p, normalize-eq-div laws y hi fin p)
          (div_le (clamp x hi) (clamp y hi) hi (clamp_bounds laws x hi fin p).0
            (clamp_mono x y hi (finite_number hi fin) h) p (div_number (clamp x hi) hi x_fin fin p)
            (div_number (clamp y hi) hi y_fin fin p))

    unit-IsFinite : (x : F) → IsUnit x → IsFinite x
    unit-IsFinite x (low, high) =
        finite_between zero_f x one_f (zero-IsFinite laws) (one-IsFinite laws) low high

    complement_anti : (x y : F) → IsUnit x → IsUnit y → x ≼ y → f.sub one_f y ≼ f.sub one_f x
    complement_anti x y ux uy h =
        let one_num = finite_number one_f (one-IsFinite laws) in
        sub_le one_f one_f y x one_num h (sub_number one_f y one_num (unit-IsFinite y uy))
          (sub_number one_f x one_num (unit-IsFinite x ux))

    falling :
        (x y hi : F)
        → IsFinite hi
        → zero_f ≺ hi
        → x ≼ y
        → f.sub one_f (normalize y zero_f hi) ≼ f.sub one_f (normalize x zero_f hi)
    falling x y hi fin p h =
        complement_anti (normalize x zero_f hi) (normalize y zero_f hi)
          (normalize-IsUnit laws x hi fin p) (normalize-IsUnit laws y hi fin p)
          (normalize_mono x y hi fin p h)

    -- A weighted factor stays between 0 and its weight.
    weighted-IsFinite : (w x : F) → IsFinite w → zero_f ≼ w → IsUnit x → IsFinite (f.mul w x)
    weighted-IsFinite w x fin p (low, high) =
        let x_fin = unit-IsFinite x (low, high) in
        let zero_fin = zero-IsFinite laws in
        let refl_zero = finite_number zero_f zero_fin in
        let num = mul_number w x fin x_fin in
        finite_between zero_f (f.mul w x) w zero_fin fin
          (subst (λ z. z ≼ f.mul w x) zero_mul_zero
            (mul_le zero_f w zero_f x refl_zero p refl_zero low
              (mul_number zero_f zero_f zero_fin zero_fin) num))
          (subst (λ z. f.mul w x ≼ z) (mul_one w fin)
            (mul_le w w x one_f p (finite_number w fin) low high num
              (mul_number w one_f fin (one-IsFinite laws))))

    weighted_mono :
        (w x y : F) → IsFinite w → zero_f ≼ w → IsUnit x → IsUnit y → x ≼ y → f.mul w x ≼ f.mul w y
    weighted_mono w x y fin p ux uy h =
        mul_le w w x y p (finite_number w fin) ux.0 h (mul_number w x fin (unit-IsFinite x ux))
          (mul_number w y fin (unit-IsFinite y uy))

    -- A term more, on both sides.
    add_term :
        (s t x y : F)
        → IsNumber s
        → IsNumber t
        → s ≼ t
        → IsFinite x
        → IsFinite y
        → x ≼ y
        → IsNumber (f.add s x) × IsNumber (f.add t y) × (f.add s x ≼ f.add t y)
    add_term s t x y ns nt h fx fy k =
        let left = add_number s x ns fx in
        let right = add_number t y nt fy in (left, right, add_le s t x y h k left right)

    total_mono :
        (config : Config F) (a b c d a' b' c' d' : F)
        → IsWeighted config
        → IsUnit a
        → IsUnit b
        → IsUnit c
        → IsUnit d
        → IsUnit a'
        → IsUnit b'
        → IsUnit c'
        → IsUnit d'
        → a ≼ a'
        → b ≼ b'
        → c ≼ c'
        → d ≼ d'
        → total config a b c d ≼ total config a' b' c' d'
    unfolding total
    total_mono config a b c d a' b' c' d' w ua ub uc ud ua' ub' uc' ud' ha hb hc hd =
        let wa = config.weight_apy in
        let wb = config.weight_risk in
        let wc = config.weight_cost in
        let wd = config.weight_stability in
        let first : IsNumber (f.mul wa a) =
          finite_number _ (weighted-IsFinite wa a w.apy.0 w.apy.1 ua) in
        let first' : IsNumber (f.mul wa a') =
          finite_number _ (weighted-IsFinite wa a' w.apy.0 w.apy.1 ua') in
        let (n, n', h) =
          add_term (f.mul wa a) (f.mul wa a') (f.mul wb b) (f.mul wb b') first first'
            (weighted_mono wa a a' w.apy.0 w.apy.1 ua ua' ha)
            (weighted-IsFinite wb b w.risk.0 w.risk.1 ub)
            (weighted-IsFinite wb b' w.risk.0 w.risk.1 ub')
            (weighted_mono wb b b' w.risk.0 w.risk.1 ub ub' hb) in
        let (m, m', k) =
          add_term _ _ (f.mul wc c) (f.mul wc c') n n' h
            (weighted-IsFinite wc c w.cost.0 w.cost.1 uc)
            (weighted-IsFinite wc c' w.cost.0 w.cost.1 uc')
            (weighted_mono wc c c' w.cost.0 w.cost.1 uc uc' hc) in
        (add_term _ _ (f.mul wd d) (f.mul wd d') m m' k
          (weighted-IsFinite wd d w.stability.0 w.stability.1 ud)
          (weighted-IsFinite wd d' w.stability.0 w.stability.1 ud')
          (weighted_mono wd d d' w.stability.0 w.stability.1 ud ud' hd)).2

    apy_factor_mono : (x y : F) → x ≼ y → apy_factor x ≼ apy_factor y
    unfolding apy_factor
    apy_factor_mono x y h =
        let (fin, p) =
          limit-IsPositive laws 20 100 (omega arith) (omega arith) (omega arith) (omega arith) in
        normalize_mono x y (f.ratio 20 100) fin p h

    risk_factor_anti : (x y : F) → x ≼ y → risk_factor y ≼ risk_factor x
    unfolding risk_factor
    risk_factor_anti x y h =
        let (fin, p) =
          limit-IsPositive laws 1 1 (omega arith) (omega arith) (omega arith) (omega arith) in
        falling x y one_f fin p h

    cost_factor_anti : (x y : F) → x ≼ y → cost_factor y ≼ cost_factor x
    unfolding cost_factor
    cost_factor_anti x y h =
        let (fin, p) =
          limit-IsPositive laws 1 100 (omega arith) (omega arith) (omega arith) (omega arith) in
        falling x y (f.ratio 1 100) fin p h

    stability_factor_mono :
        (x y : F) → IsFinite x → IsFinite y → x ≼ y → stability_factor x ≼ stability_factor y
    unfolding stability_factor
    stability_factor_mono x y fx fy h =
        let (fin, p) =
          limit-IsPositive laws 30 100 (omega arith) (omega arith) (omega arith) (omega arith) in
        falling (max_f zero_f (f.neg y)) (max_f zero_f (f.neg x)) (f.ratio 30 100) fin p
          (max_zero_mono (f.neg y) (f.neg x) (neg_le x y fx fy h))

    -- With finite weights that are not negative, a protocol whose yield and TVL change are at least
    -- as high and whose utilization and gas cost are at most as high never scores lower in total.
    pub score_protocol_mono :
        (config : Config F) (apy apy' utilization utilization' gas gas' delta delta' : F)
        → IsWeighted config
        → IsFinite delta
        → IsFinite delta'
        → apy ≼ apy'
        → utilization' ≼ utilization
        → gas' ≼ gas
        → delta ≼ delta'
        → (score_protocol config apy utilization gas delta).total_score
          ≼ (score_protocol config apy' utilization' gas' delta').total_score
    unfolding score_protocol
    score_protocol_mono config apy apy' u u' gas gas' delta delta' w fd fd' ha hu hg hd =
        round_le _ _ 4 (
          total_mono config _ _ _ _ _ _ _ _ w (apy_factor-IsUnit laws apy)
            (risk_factor-IsUnit laws u) (cost_factor-IsUnit laws gas)
            (stability_factor-IsUnit laws delta) (apy_factor-IsUnit laws apy')
            (risk_factor-IsUnit laws u') (cost_factor-IsUnit laws gas')
            (stability_factor-IsUnit laws delta') (apy_factor_mono apy apy' ha)
            (risk_factor_anti u' u hu) (cost_factor_anti gas' gas hg)
            (stability_factor_mono delta delta' fd fd' hd))
