-- ===== src/Protocols/Pinned.antt =====
-- `read_at_block` depends on the chain at its block alone.
use event_time_mcdm_agent.Common.{
  ℕ, ◌≡◌, refl, Option, none, some, String, Result, ok, raised, ◌>>=◌, ℤ,
}
use event_time_mcdm_agent.Common.Exec.{continue}
use event_time_mcdm_agent.Float.{Float}
use event_time_mcdm_agent.Protocols.Aave.{PoolCalls, PoolReader, ReserveData}
use event_time_mcdm_agent.Protocols.Spark
use event_time_mcdm_agent.Protocols.Spark.{bind_tokens, read_totals, read_with, read_pool}
use event_time_mcdm_agent.Protocols.Morpho
use event_time_mcdm_agent.Protocols.Morpho.{
  MorphoCalls, MorphoReader, Market, rate_model, read_rate, finish_rate, read_market,
}

-- Two sets of calls that answer alike at a block, and check addresses alike.
pub record SamePool (a b : PoolCalls) (block_number : ℕ) : Type 0 where
  pub reserve : a.get_reserve_data (some block_number) ≡ b.get_reserve_data (some block_number)
  pub supply :
      (token : String)
      → a.total_supply token (some block_number) ≡ b.total_supply token (some block_number)
  pub checksum : (s : String) → a.to_checksum_address s ≡ b.to_checksum_address s

pub record SameMarket (a b : MorphoCalls) (block_number : ℕ) : Type 0 where
  pub market : a.market block_number ≡ b.market block_number
  pub irm : a.market_irm block_number ≡ b.market_irm block_number
  pub rate :
      (s : String) (m : Market)
      → a.borrow_rate_view s m block_number ≡ b.borrow_rate_view s m block_number
  pub checksum : (s : String) → a.to_checksum_address s ≡ b.to_checksum_address s

bind_tokens-eq :
    (a b : PoolCalls) (n : ℕ) (d : ReserveData) (x y : Option String)
    → SamePool a b n
    → bind_tokens a d x y ≡ bind_tokens b d x y
unfolding bind_tokens
bind_tokens-eq a b n d (some x) (some y) h = refl
bind_tokens-eq a b n d none y h =
    rw (h.checksum d.atoken_address, h.checksum d.variable_debt_token_address)
bind_tokens-eq a b n d (some x) none h =
    rw (h.checksum d.atoken_address, h.checksum d.variable_debt_token_address)

rate_model-eq :
    (a b : MorphoCalls) (n : ℕ) (x : Option String)
    → SameMarket a b n
    → rate_model a n x ≡ rate_model b n x
unfolding rate_model
rate_model-eq a b n (some x) h = refl
rate_model-eq a b n none h = rw h.irm (checked (b.market_irm n))
  where
    checked :
        (t : Result String)
        → (t >>= λ s. a.to_checksum_address s) ≡ (t >>= λ s. b.to_checksum_address s)
    checked (ok s) = h.checksum s
    checked (raised e) = refl

module _ {F : Type 0} ⦃f : Float F⦄ where
  supplies-eq :
      (a b : PoolCalls) (n : ℕ) (d : ReserveData) (bound : String × String) (i : ℤ)
      → SamePool a b n
      → read_totals {F = F} a n d bound i ≡ read_totals b n d bound i
  unfolding read_totals
  supplies-eq a b n d (x, y) i h = rw (h.supply x, h.supply y)

  finish-eq :
      (a b : PoolCalls) (n : ℕ) (d : ReserveData) (t : Result (String × String)) (r : PoolReader)
      → SamePool a b n
      → continue t (read_with {F = F} a n d) r ≡ continue t (read_with b n d) r
  unfolding read_with
  finish-eq a b n d (ok bound) r h = rw (supplies-eq a b n d bound r.adapter_index h)
  finish-eq a b n d (raised e) r h = refl

  reserve-eq :
      (a b : PoolCalls) (n : ℕ) (t : Result ReserveData) (r : PoolReader)
      → SamePool a b n
      → continue t (read_pool {F = F} a n) r ≡ continue t (read_pool b n) r
  unfolding read_pool
  reserve-eq a b n (ok d) r h =
      rw (bind_tokens-eq a b n d r.atoken r.variable_debt h)
        (finish-eq a b n d (bind_tokens b d r.atoken r.variable_debt) r h)
  reserve-eq a b n (raised e) r h = refl

  rate-eq :
      (a b : MorphoCalls) (n : ℕ) (m : Market) (t : Result String) (r : MorphoReader)
      → SameMarket a b n
      → continue t (finish_rate {F = F} a n m) r ≡ continue t (finish_rate b n m) r
  unfolding finish_rate read_rate
  rate-eq a b n m (ok irm) r h = rw (h.rate irm m)
  rate-eq a b n m (raised e) r h = refl

  market-eq :
      (a b : MorphoCalls) (n : ℕ) (t : Result Market) (r : MorphoReader)
      → SameMarket a b n
      → continue t (read_market {F = F} a n) r ≡ continue t (read_market b n) r
  unfolding read_market
  market-eq a b n (ok m) r h =
      rw (rate_model-eq a b n r.irm h) (rate-eq a b n m (rate_model b n r.irm) r h)
  market-eq a b n (raised e) r h = refl

  -- `SparkReader.read_at_block` is pinned: chains that answer alike at the block give the same
  -- snapshot or exception and leave the same reader, whatever they answer at any other block.
  pub spark_read_pinned :
      (a b : PoolCalls) (block_number : ℕ) (r : PoolReader)
      → SamePool a b block_number
      → Spark.read_at_block {F = F} a block_number r ≡ Spark.read_at_block b block_number r
  unfolding Spark.read_at_block
  spark_read_pinned a b n r h = rw h.reserve (reserve-eq a b n (b.get_reserve_data (some n)) r h)

  -- `MorphoBlueReader.read_at_block` is pinned in the same way.
  pub morpho_read_pinned :
      (a b : MorphoCalls) (block_number : ℕ) (r : MorphoReader)
      → SameMarket a b block_number
      → Morpho.read_at_block {F = F} a block_number r ≡ Morpho.read_at_block b block_number r
  unfolding Morpho.read_at_block
  morpho_read_pinned a b n r h = rw h.market (market-eq a b n (b.market n) r h)
