-- ===== src/History/Stored.antt =====
-- agent/state/history.py with agent/per_block_loop.py: every state that the loop makes has a row.
use event_time_mcdm_agent.Common.{
  ℕ, List, [], ◌∷◌, map, In, Option, some, String, string_eq, Bool-cases, ◌==◌, ◌≡◌, refl, sym, ◌⊎◌,
  inl, inr, ok,
}
use event_time_mcdm_agent.Common.Dict.{Dict, lookup, insert, lookup-insert, lookup-insert_self}
use event_time_mcdm_agent.Float.{Float}
use event_time_mcdm_agent.Protocols.{ProtocolData}
use event_time_mcdm_agent.PerBlockLoop.{BlockState, Action, Ports, panel, assemble}
use event_time_mcdm_agent.History.Flatten.{
  Row, number, apr_column, utilization_column, tvl_column, flatten_protocols, flatten,
}

module _ {V : Type 0} where
  abbrev HasKey : String → Dict String V → Type 0
  HasKey k d = (v : V) × (lookup k d ≡ some v)

  HasKey-insert :
      (k j : String) (v : V) (d : Dict String V) → (j ≡ k) ⊎ HasKey k d → HasKey k (insert j v d)
  HasKey-insert k j v d (inl e) = (v, rw e (lookup-insert_self k v d))
  HasKey-insert k j v d (inr (w, h)) = elim (Bool-cases (j == k)) [
    | inl e ↦ (v, rw (lookup-insert j k v d, e) refl)
    | inr e ↦ (w, rw (lookup-insert j k v d, e) h)
  ]

module _ {F : Type 0} ⦃f : Float F⦄ where
  abbrev labels : List (String × ProtocolData F) → List String
  labels = map (λ (p : String × ProtocolData F). p.0)

  HasKey-panel :
      (field : ProtocolData F → F) (snapshots : List (String × ProtocolData F)) (k : String)
      (d : Dict String F)
      → In k (labels snapshots) ⊎ HasKey k d
      → HasKey k (panel field snapshots d)
  unfolding panel
  HasKey-panel field [] k d (inl i) = elim i [ ]
  HasKey-panel field [] k d (inr h) = h
  HasKey-panel field ((label, snap) ∷ rest) k d (inl (inl e)) =
      HasKey-panel field rest k (insert label (field snap) d)
        (inr (HasKey-insert k label (field snap) d (inl (sym e))))
  HasKey-panel field ((label, snap) ∷ rest) k d (inl (inr i)) =
      HasKey-panel field rest k (insert label (field snap) d) (inl i)
  HasKey-panel field ((label, snap) ∷ rest) k d (inr h) =
      HasKey-panel field rest k (insert label (field snap) d)
        (inr (HasKey-insert k label (field snap) d (inr h)))

  -- Every dict of the state has the protocols.
  abbrev HasPanel : BlockState F → String → Type 0
  HasPanel state proto =
      HasKey proto state.lending_apr × HasKey proto state.utilization × HasKey proto state.tvl_usd

  flatten_protocols_total :
      (state : BlockState F) (protos : List String) (row : Row F)
      → ((proto : String) → In proto protos → HasPanel state proto)
      → (row' : Row F) × (flatten_protocols state protos row ≡ ok row')
  unfolding flatten_protocols
  flatten_protocols_total state [] row h = (row, refl)
  flatten_protocols_total state (proto ∷ rest) row h =
      let ((apr, e1), (used, e2), (tvl, e3)) = h proto (inl refl) in
      let (row', e) =
        flatten_protocols_total state rest
          (insert (tvl_column proto) (number tvl) (
            insert (utilization_column proto) (number used)
              (insert (apr_column proto) (number apr) row)))
          (λ p i. h p (inr i)) in
      (row', rw (e1, e2, e3) e)

  -- The state that the loop assembles of any snapshots, stale ones and doubled labels included, is
  -- always flattened to a row: no column is missing.
  pub flatten-assemble_total :
      {W : Type 0} (ports : Ports F W) (current : Option String) (block_number block_timestamp : ℕ)
      (gas_price_gwei eth_price_usd : F) (snapshots : List (String × ProtocolData F))
      (action : Action)
      → (row : Row F) × (flatten
            (assemble ports current block_number block_timestamp gas_price_gwei eth_price_usd
              snapshots)
            action
          ≡ ok row)
  unfolding flatten assemble
  flatten-assemble_total ports current block_number block_timestamp gas_price_gwei eth_price_usd
        snapshots action =
      flatten_protocols_total _ (labels snapshots) _ (λ proto i. (
        HasKey-panel (λ d. d.apy) snapshots proto [] (inl i),
        HasKey-panel (λ d. d.utilization) snapshots proto [] (inl i),
        HasKey-panel (λ d. d.tvl) snapshots proto [] (inl i),
      ))
