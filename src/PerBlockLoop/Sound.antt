-- ===== src/PerBlockLoop/Sound.antt =====
-- The event loop with all of the program's own objects: what holds of them together.
use event_time_mcdm_agent.Common.{
  ℕ, suc, ◌≤◌, ◌≡◌, refl, pos, List, [], ◌∷◌, length, map, All, Option, String, true, false, Result,
  ok, raised, inl, inr, arith, subst, ap,
}
use event_time_mcdm_agent.Float.{Float}
use event_time_mcdm_agent.Mempool.{Json, FlashbotsMempool, RelayPorts, Net, submit_private_tx}
use event_time_mcdm_agent.Mempool.Submit.{
  IsAuthentic, Posts, submit_private_tx-Posts, submit_private_tx-Posted,
}
use event_time_mcdm_agent.History.{Parquet, HistoryStore}
use event_time_mcdm_agent.History.Flatten.{Row}
use event_time_mcdm_agent.History.Live.{stored}
use event_time_mcdm_agent.History.Safe.{IsSafe, stored-IsKeptBy}
use event_time_mcdm_agent.Observability.Sink.{Observer}
use event_time_mcdm_agent.PerBlockLoop.{BlockReader, Ports, Loop, noted, run}
use event_time_mcdm_agent.PerBlockLoop.Metered.{Sensors}
use event_time_mcdm_agent.PerBlockLoop.Keeps.{AreReadersKept, IsKeptBy, run-kept}
use event_time_mcdm_agent.PerBlockLoop.Lifted.{Beside, OfStore, stored-IsLifted, metered-IsLifted}
use event_time_mcdm_agent.PerBlockLoop.Position.{IsTracking, run-IsTracking}
use event_time_mcdm_agent.PerBlockLoop.Counted.{IsCounted, run-IsCounted}
use event_time_mcdm_agent.PerBlockLoop.Live.{relayed_reader, relayed, live}

module _ {R W : Type 0} (relay : RelayPorts R W) (client : FlashbotsMempool) where
  -- A dry run posted nothing; a live client posted at least once for each submission that returned;
  -- and whatever was posted is authentic.
  abbrev pub IsAccounted : List String → Net W → Type 0
  IsAccounted targets net =
      ((client.dry_run ≡ true) → (net.posted ≡ []))
      × ((client.dry_run ≡ false) → (length targets ≤ length net.posted))
      × All (IsAuthentic relay client) net.posted

  -- A submission that raised may have posted, or not.
  Posts-IsAccounted :
      (targets : List String) (s s' : Net W)
      → Posts relay client s s'
      → IsAccounted targets s
      → IsAccounted targets s'
  Posts-IsAccounted targets s s' (inl same) (dry, count, authentic) =
      rw same (dry, count, authentic)
  Posts-IsAccounted targets s s' (inr (off, post, more, by_client)) (dry, count, authentic) =
      rw more (λ on. cc, λ off'. omega (arith, count off'), (by_client, authentic))

  module _ {F : Type 0} ⦃f : Float F⦄ (gas : F) where
    returned-IsAccounted :
        (target : String) (targets : List String) (s : Net W) (answer : Json)
        → (submit_private_tx relay client gas s).0 ≡ ok answer
        → IsAccounted targets s
        → IsAccounted (target ∷ targets) (submit_private_tx relay client gas s).1
    returned-IsAccounted target targets s answer h before =
        let (dry, count, authentic) =
          Posts-IsAccounted targets s (submit_private_tx relay client gas s).1
            (submit_private_tx-Posts relay client gas s) before in
        (dry, counted, authentic)
      where
        counted :
            client.dry_run ≡ false
            → suc (length targets) ≤ length (submit_private_tx relay client gas s).1.posted
        counted off =
            let (post, more) = submit_private_tx-Posted relay client gas s answer off h in
            rw more (omega (arith, before.1 off))

    submit-IsAccounted :
        (target : String) (targets : List String) (s : Net W)
        → IsAccounted targets s
        → IsAccounted
            (noted target (submit_private_tx relay client gas s).0 targets)
            (submit_private_tx relay client gas s).1
    submit-IsAccounted target targets s before =
        by_result (submit_private_tx relay client gas s).0 (submit_private_tx relay client gas s).1
          refl (submit_private_tx-Posts relay client gas s)
      where
        by_result :
            (r : Result Json) (s' : Net W)
            → submit_private_tx relay client gas s ≡ (r, s')
            → Posts relay client s s'
            → IsAccounted (noted target r targets) s'
        by_result (raised e) s' h posts = Posts-IsAccounted targets s s' posts before
        by_result (ok answer) s' h posts =
            subst (IsAccounted (target ∷ targets)) (ap (λ c. c.1) h)
              (returned-IsAccounted target targets s answer (ap (λ c. c.0) h) before)

module _ {F : Type 0} ⦃f : Float F⦄ {R W B : Type 0} (relay : RelayPorts R W)
    (client : FlashbotsMempool) (parquet : Parquet (Row F) B) (n : ℕ) where
  abbrev System : Type 0
  System = Loop ((Net W × HistoryStore (Row F) B) × Observer F)

  -- The position, the counter, the posts and the store agree with the submissions.
  abbrev pub AreSound : Option String → System → Type 0
  AreSound start s =
      IsTracking start s
      × IsCounted s
      × IsAccounted relay client s.submitted s.world.0.0
      × IsSafe parquet n s.world.0.1

module _ {F : Type 0} ⦃f : Float F⦄ {R W : Type 0} (relay : RelayPorts R W)
    (client : FlashbotsMempool) (ports : Ports F W) where
  relayed-AreReadersKept :
      (readers : List (BlockReader F W))
      → AreReadersKept (IsAccounted relay client) (map (relayed_reader relay client) readers)
  relayed-AreReadersKept [] = tt
  relayed-AreReadersKept (r ∷ rest) = (λ targets n s p. p, relayed-AreReadersKept rest)

  relayed-IsKeptBy : IsKeptBy (IsAccounted relay client) (relayed relay client ports)
  unfolding relayed
  relayed-IsKeptBy = record {
    readers_kept = relayed-AreReadersKept ports.readers;
    gas_price_kept = λ targets s p. p;
    get_block_kept = λ targets n s p. p;
    utcnow_kept = λ targets s p. p;
    price_kept = λ targets s p. p;
    decide_kept = λ targets state s p. p;
    count_kept = λ targets s p. p;
    submit_kept = λ target state targets s p.
        submit-IsAccounted relay client state.gas_price_gwei target targets s p;
    record_kept = λ targets state action current s p. p;
    append_kept = λ targets state action s p. p;
  }

  module _ {B : Type 0} (parquet : Parquet (Row F) B) (n : ℕ)
      (sensors : Sensors F (Net W × HistoryStore (Row F) B)) where
    abbrev program : Ports F ((Net W × HistoryStore (Row F) B) × Observer F)
    program = live relay client parquet (pos (suc n)) sensors ports

    accounted :
        IsKeptBy
          (Beside (Beside (IsAccounted relay client) (HistoryStore (Row F) B)) (Observer F))
          program
    unfolding live
    accounted =
        metered-IsLifted _ _ (stored-IsLifted _ _ relayed-IsKeptBy parquet (pos (suc n))) sensors

    safe : IsKeptBy (Beside (OfStore (IsSafe parquet n)) (Observer F)) program
    unfolding live
    safe = metered-IsLifted _ _ (stored-IsKeptBy parquet n (relayed relay client ports)) sensors

    -- The loop with its client, its store and its sinks keeps these four over any number of blocks,
    -- whatever raises in them, the writes of the store included: the position is the last target
    -- whose submission returned; the counter of the rebalances counts those submissions; a client in
    -- a dry run has posted nothing, and any other at least once for each of them, always signed by
    -- its auth key; and the file of the store is flushed, and the store within its window.
    pub live_run-AreSound :
        (start : Option String) (blocks : List ℕ) (s : System relay client parquet n)
        → AreSound relay client parquet n start s
        → AreSound relay client parquet n start (run program blocks s)
    unfolding live
    live_run-AreSound start blocks s (tracking, counted, posts, rows) = (
      run-IsTracking program start blocks s tracking,
      run-IsCounted sensors (stored parquet (pos (suc n)) (relayed relay client ports)) blocks s
          counted,
      run-kept _ program accounted blocks s posts,
      run-kept _ program safe blocks s rows,
    )
