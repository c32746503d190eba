-- ===== src/DataReader/Isolation.antt =====
-- A reader that fails costs its own snapshot only.
use event_time_mcdm_agent.Common.{
  ℕ, ◌+◌, ◌≡◌, refl, ap, sym, ◌∙◌, In, In-append, inl, inr, suc, List, [], ◌∷◌, ◌++◌, String,
  Result, ok, raised, Exn, length, arith,
}
use event_time_mcdm_agent.Protocols.{ProtocolData}
use event_time_mcdm_agent.DataReader.{Reader, Reading, record_read, read_all}

module _ {F W : Type 0} where
  -- One reading after another.
  abbrev pub after : Reading F W → Reading F W → Reading F W
  after a b = record {
    results = a.results ++ b.results;
    failed = a.failed ++ b.failed;
    world = b.world;
  }

  record_read-after :
      (name : String) (result : Result (ProtocolData F)) (a b : Reading F W)
      → record_read name result (after a b) ≡ after (record_read name result a) b
  record_read-after name (ok d) a b = refl
  record_read-after name (raised e) a b = refl

  world-record_read :
      (name : String) (result : Result (ProtocolData F)) (a : Reading F W)
      → (record_read name result a).world ≡ a.world
  world-record_read name (ok d) a = refl
  world-record_read name (raised e) a = refl

  -- Reading two lists of readers is reading one and then the other.
  pub read_all-append :
      (rs qs : List (Reader F W)) (w : W)
      → read_all (rs ++ qs) w ≡ after (read_all rs w) (read_all qs (read_all rs w).world)
  unfolding read_all
  read_all-append [] qs w = refl
  read_all-append (r ∷ rs) qs w =
      let result = (r.read w).0 in
      let w' = (r.read w).1 in
      let first = read_all rs w' in
      ap (record_read r.name result) (read_all-append rs qs w')
      ∙ record_read-after r.name result first (read_all qs first.world)
      ∙ ap (λ u. after (record_read r.name result first) (read_all qs u))
          (sym (world-record_read r.name result first))

  failing :
      (bad : Reader F W) (later : List (Reader F W)) (w : W) (e : Exn)
      → bad.read w ≡ (raised e, w)
      → read_all (bad ∷ later) w ≡ record_read bad.name (raised e) (read_all later w)
  unfolding read_all
  failing bad later w e h = rw h

  counted :
      (name : String) (result : Result (ProtocolData F)) (a : Reading F W) {n : ℕ}
      → length a.results + length a.failed ≡ n
      → length (record_read name result a).results + length (record_read name result a).failed
        ≡ suc n
  counted name (ok d) a h = omega arith
  counted name (raised e) a h = omega arith

  -- A reader that raises and leaves the world as it was is logged as failed, and costs no other
  -- reader its snapshot: the results and the world are those of the readers without it.
  pub read_all_isolates :
      (before : List (Reader F W)) (bad : Reader F W) (later : List (Reader F W)) (w : W) (e : Exn)
      → bad.read (read_all before w).world ≡ (raised e, (read_all before w).world)
      → let with_bad = read_all (before ++ (bad ∷ later)) w in
        let without = read_all (before ++ later) w in
        (with_bad.results ≡ without.results)
        × (with_bad.world ≡ without.world)
        × In bad.name with_bad.failed
  read_all_isolates before bad later w e h =
      rw (read_all-append before (bad ∷ later) w, read_all-append before later w)
        (rw (failing bad later (read_all before w).world e h)
          (refl, refl, (In-append bad.name (read_all before w).failed _).1 (inr (inl refl))))

  -- Every registered reader is accounted for: it gives a snapshot or is logged as failed.
  pub read_all_counts :
      (readers : List (Reader F W)) (w : W)
      → let r = read_all readers w in length r.results + length r.failed ≡ length readers
  unfolding read_all
  read_all_counts [] w = refl
  read_all_counts (r ∷ rs) w =
      counted r.name (r.read w).0 (read_all rs (r.read w).1) (read_all_counts rs (r.read w).1)
