-- ===== src/DataReader/Delta.antt =====
-- The TVL history keeps the last observation of each adapter.
use event_time_mcdm_agent.Common.{
  ℕ, ℤ, ◌≡◌, ◌≢◌, none, some, Result, ok, raised, Exn, arith, int_beq_iff, int_eq,
}
use event_time_mcdm_agent.Common.Dict.{lookup, insert, lookup-insert, lookup-insert_self}
use event_time_mcdm_agent.Float.{Float, ◌≼◌, ◌≺◌, zero_f, IsFinite, max_f}
use event_time_mcdm_agent.Float.Laws.{IsIeee}
use event_time_mcdm_agent.Scoring.Bounds.{zero-IsFinite}
use event_time_mcdm_agent.Protocols.{ProtocolData}
use event_time_mcdm_agent.DataReader.{TvlHistory, change, get_tvl_delta, block_age_seconds}

module _ {F : Type 0} ⦃f : Float F⦄ where
  -- Two observations of one adapter in a row: the second call answers with the fractional change
  -- from the first TVL to the second, or 0 if the first was 0; the history then holds the second
  -- TVL, and what it holds of any other adapter is as before both calls.
  pub get_tvl_delta_twice :
      (p q : ProtocolData F) (history : TvlHistory F) (other : ℤ)
      → q.adapter_index ≡ p.adapter_index
      → other ≢ p.adapter_index
      → let (_, first) = get_tvl_delta p history in
        let (delta, second) = get_tvl_delta q first in
        (delta ≡ change q.tvl (some p.tvl))
        × (lookup q.adapter_index second ≡ some q.tvl)
        × (lookup other second ≡ lookup other history)
  unfolding get_tvl_delta
  get_tvl_delta_twice p q history other same ne = (
    rw same (rw (lookup-insert_self p.adapter_index p.tvl history)),
    lookup-insert_self q.adapter_index q.tvl _,
    rw
        (
          lookup-insert q.adapter_index other q.tvl (insert p.adapter_index p.tvl history),
          lookup-insert p.adapter_index other p.tvl history,
        )
        (ground (arith, int_beq_iff q.adapter_index other, int_beq_iff p.adapter_index other)),
  )

  -- The first observation of an adapter answers 0.
  pub get_tvl_delta_first :
      (p : ProtocolData F) (history : TvlHistory F)
      → lookup p.adapter_index history ≡ none
      → (get_tvl_delta p history).0 ≡ zero_f
  unfolding get_tvl_delta
  get_tvl_delta_first p history h = rw h

  max_zero_nonneg : (laws : IsIeee F) (x : F) → zero_f ≼ max_f zero_f x
  unfolding max_f
  max_zero_nonneg laws x =
      ground (arith, laws.lt_iff_le zero_f x, laws.finite_number zero_f (zero-IsFinite laws))

  zero-le-inf : (laws : IsIeee F) → zero_f ≼ f.inf
  zero-le-inf laws =
      ground (arith, laws.lt_iff_le zero_f f.inf, laws.inf_above zero_f (zero-IsFinite laws))

  -- The age is never negative, and if the block cannot be read it exceeds every finite limit.
  pub block_age_seconds_bounds :
      (laws : IsIeee F) (latest : Result ℕ) (now limit : F)
      → IsFinite limit
      → (zero_f ≼ block_age_seconds latest now)
        × ((e : Exn) → latest ≡ raised e → limit ≺ block_age_seconds latest now)
  unfolding block_age_seconds
  block_age_seconds_bounds laws (ok t) now limit fin =
      (max_zero_nonneg laws (f.sub now (f.ratio t 1)), λ e h. cc)
  block_age_seconds_bounds laws (raised x) now limit fin =
      (zero-le-inf laws, λ e h. laws.inf_above limit fin)
