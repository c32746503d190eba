-- ===== src/PerBlockLoop/Stale.antt =====
-- A reader that fails or times out costs its block nothing but its own numbers.
use event_time_mcdm_agent.Common.{
  ℕ, ◌≡◌, ◌≢◌, refl, ap, ◌∙◌, some, List, [], ◌∷◌, ◌++◌, All, String, raised, Exn, string_eq, ◌==◌,
  same→eq, Bool-cases, inl, inr, if◌then◌else◌,
}
use event_time_mcdm_agent.Common.Dict.{Dict, lookup, insert, lookup-insert, lookup-insert_self}
use event_time_mcdm_agent.Float.{Float, zero_f}
use event_time_mcdm_agent.Protocols.{ProtocolData}
use event_time_mcdm_agent.PerBlockLoop.{BlockReader, stale_snapshot, read_one, gather, panel}

module _ {F : Type 0} ⦃f : Float F⦄ where
  panel-append :
      (field : ProtocolData F → F) (xs ys : List (String × ProtocolData F)) (d : Dict String F)
      → panel field (xs ++ ys) d ≡ panel field ys (panel field xs d)
  unfolding panel
  panel-append field [] ys d = refl
  panel-append field ((label, snap) ∷ xs) ys d =
      panel-append field xs ys (insert label (field snap) d)

  -- Other labels leave an entry as it is.
  lookup-panel :
      (field : ProtocolData F → F) (label : String) (ys : List (String × ProtocolData F))
      (d : Dict String F)
      → All (λ (y : String × ProtocolData F). y.0 ≢ label) ys
      → lookup label (panel field ys d) ≡ lookup label d
  unfolding panel
  lookup-panel field label [] d h = refl
  lookup-panel field label ((other, snap) ∷ ys) d (ne, h) =
      lookup-panel field label ys (insert other (field snap) d) h
      ∙ lookup-insert other label (field snap) d
      ∙ kept
    where
      kept : (if other == label then some (field snap) else lookup label d) ≡ lookup label d
      kept = elim (Bool-cases (other == label)) [
        | inl e ↦ absurd (ne (same→eq other label e))
        | inr e ↦ rw e refl
      ]

  module _ {W : Type 0} (block_number : ℕ) where
    pub gather-append :
        (rs qs : List (BlockReader F W)) (w : W)
        → let (first, w') = gather block_number rs w in
          let (second, w'') = gather block_number qs w' in
          gather block_number (rs ++ qs) w ≡ (first ++ second, w'')
    unfolding gather
    gather-append [] qs w = refl
    gather-append (r ∷ rs) qs w =
        let (d, w') = read_one block_number r w in
        ap (λ (t : List (String × ProtocolData F) × W). ((r.label, d) ∷ t.0, t.1))
          (gather-append rs qs w')

    labels-gather :
        (label : String) (rs : List (BlockReader F W)) (w : W)
        → All (λ (r : BlockReader F W). r.label ≢ label) rs
        → All (λ (y : String × ProtocolData F). y.0 ≢ label) (gather block_number rs w).0
    unfolding gather
    labels-gather label [] w h = tt
    labels-gather label (r ∷ rs) w (ne, h) =
        (ne, labels-gather label rs (read_one block_number r w).1 h)

    module _ (before : List (BlockReader F W)) (bad : BlockReader F W)
        (later : List (BlockReader F W)) (w : W) where
      -- The snapshots of the readers around a reader that failed and left the world `w'`.
      abbrev pub stale_between : W → List (String × ProtocolData F)
      stale_between w' =
          (gather block_number before w).0
          ++ ((bad.label, stale_snapshot bad.label bad.adapter_index)
              ∷ (gather block_number later w').0)

      gather-stale :
          (e : Exn) (w' : W)
          → bad.read_at_block block_number (gather block_number before w).1 ≡ (raised e, w')
          → (gather block_number (before ++ (bad ∷ later)) w).0 ≡ stale_between w'
      unfolding gather read_one
      gather-stale e w' h =
          ap (λ (t : List (String × ProtocolData F) × W). t.0)
            (gather-append before (bad ∷ later) w)
          ∙ ap (λ t. (gather block_number before w).0 ++ t) (failing e w' h)
        where
          failing :
              (e : Exn) (w' : W)
              → bad.read_at_block block_number (gather block_number before w).1 ≡ (raised e, w')
              → (gather block_number (bad ∷ later) (gather block_number before w).1).0
                ≡ (bad.label, stale_snapshot bad.label bad.adapter_index)
                  ∷ (gather block_number later w').0
          failing e w' h = rw h refl

      entry :
          (field : ProtocolData F → F) (w' : W)
          → All (λ (r : BlockReader F W). r.label ≢ bad.label) later
          → lookup bad.label (panel field (stale_between w') [])
            ≡ some (field (stale_snapshot bad.label bad.adapter_index))
      unfolding panel
      entry field w' h =
          let first = (gather block_number before w).0 in
          let second = (gather block_number later w').0 in
          let stale = stale_snapshot bad.label bad.adapter_index in
          ap (lookup bad.label) (panel-append field first ((bad.label, stale) ∷ second) [])
          ∙ lookup-panel field bad.label second _ (labels-gather bad.label later w' h)
          ∙ lookup-insert_self bad.label (field stale) (panel field first [])

      -- A reader that raises or times out gives its block NaN as rate and utilization and 0 as TVL,
      -- under its own label, if no later reader has that label; every other reader's snapshot is the
      -- one that it returned.
      pub gather_isolates :
          (e : Exn) (w' : W)
          → All (λ (r : BlockReader F W). r.label ≢ bad.label) later
          → bad.read_at_block block_number (gather block_number before w).1 ≡ (raised e, w')
          → let all = (gather block_number (before ++ (bad ∷ later)) w).0 in
            (lookup bad.label (panel (λ d. d.apy) all []) ≡ some f.nan)
            × (lookup bad.label (panel (λ d. d.utilization) all []) ≡ some f.nan)
            × (lookup bad.label (panel (λ d. d.tvl) all []) ≡ some zero_f)
            × (all ≡ stale_between w')
      unfolding stale_snapshot
      gather_isolates e w' h raises =
          rw (gather-stale e w' raises) (
            entry (λ d. d.apy) w' h,
            entry (λ d. d.utilization) w' h,
            entry (λ d. d.tvl) w' h,
            refl,
          )
