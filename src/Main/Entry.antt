-- ===== src/Main/Entry.antt =====
-- What the whole program may send, and how it ends.
use event_time_mcdm_agent.Common.{
  Bool, true, false, ℕ, ◌*◌, ◌≡◌, refl, List, Exn, [], Result, ok, raised, if◌then◌else◌, subst,
}
use event_time_mcdm_agent.Float.{Float}
use event_time_mcdm_agent.Config.{Config}
use event_time_mcdm_agent.DataReader.{Reader}
use event_time_mcdm_agent.Signer.{EthAccount}
use event_time_mcdm_agent.Main.Backend.{Backend, Agent, Submission}
use event_time_mcdm_agent.Main.Cycle.{run_check, run_cycles}
use event_time_mcdm_agent.Main.Emits.{Grows, Grows-refl}
use event_time_mcdm_agent.Main.Advice.{AdvisedIn, allowance, weaken, run_cycles-Emits}
use event_time_mcdm_agent.Main.Startup.{
  Args, Outcome, exited, crashed, done, looping, Node, is_configured, ended, serve, open_reader,
  log_block, log_chain, connect, main,
}

abbrev pub rounds : Args → ℕ → ℕ
rounds args n = if args.once then 1 else n

module _ {F : Type 0} ⦃f : Float F⦄ {W : Type 0} (config : Config F) (backend : Backend F W)
    (eth : EthAccount) (node : Node W) (default_readers : Result (List (Reader F W))) where
  -- The submission is advised in a cycle of the program that began in the state: the cycles start
  -- with the repository's readers, without a TVL history, after the three calls of the start-up.
  abbrev pub IsJustified : Args → ℕ → Agent F W → Submission → Type 0
  IsJustified args n s t =
      (readers : List (Reader F W)) × (default_readers ≡ ok readers)
      × AdvisedIn config backend eth (rounds args n) readers args.dry_run
          (record s {
            prev_tvl = [];
            world = (node.block_number (node.chain_id (node.is_connected s.world).1).1).1;
          })
          t

  -- It exits only with code 1 and before anything is sent; it comes back only with `--once`; and
  -- what it sends has the property, and is bounded by its rounds.
  abbrev pub IsGuarded : (Submission → Type 0) → Args → ℕ → Agent F W → Outcome × Agent F W → Type 0
  IsGuarded P args n s (o, s') =
      Grows P (rounds args n * allowance config backend eth args.dry_run) s.sent s'.sent
      × ((code : ℕ) → o ≡ exited code → (code ≡ 1) × (s'.sent ≡ s.sent))
      × (o ≡ done → args.once ≡ true)

  module _ (P : Submission → Type 0) where
    -- A program that stops before its loop and has sent nothing.
    stopped-IsGuarded :
        (args : Args) (n : ℕ) (s s' : Agent F W) (e : Exn)
        → s'.sent ≡ s.sent
        → IsGuarded P args n s (crashed e, s')
    stopped-IsGuarded args n s s' e same = (rw same (Grows-refl _ _ s.sent), λ code h. cc, λ h. cc)

    exited-IsGuarded :
        (args : Args) (n : ℕ) (s s' : Agent F W)
        → s'.sent ≡ s.sent
        → IsGuarded P args n s (exited 1, s')
    exited-IsGuarded args n s s' same =
        (rw same (Grows-refl _ _ s.sent), λ code h. (cc, same), λ h. cc)

    ended-IsGuarded :
        (args : Args) (n : ℕ) (s : Agent F W) (r : Result Bool) (s' : Agent F W)
        → args.once ≡ true
        → Grows P (rounds args n * allowance config backend eth args.dry_run) s.sent s'.sent
        → IsGuarded P args n s (ended (r, s'))
    ended-IsGuarded args n s (ok sent) s' once grows = (grows, λ code h. cc, λ h. once)
    ended-IsGuarded args n s (raised e) s' once grows = (grows, λ code h. cc, λ h. cc)

    serve-IsGuarded :
        (args : Args) (n : ℕ) (readers : List (Reader F W)) (s : Agent F W)
        → ((t : Submission)
            → AdvisedIn config backend eth (rounds args n) readers args.dry_run s t
            → P t)
        → IsGuarded P args n s (serve config backend eth node default_readers args n readers s)
    unfolding serve run_cycles
    serve-IsGuarded args n readers s justified = by_flag args.once refl
      where
        served : Bool → Outcome × Agent F W
        served b =
            if b
            then ended (run_check config backend eth readers args.dry_run s)
            else (looping, run_cycles config backend eth n readers args.dry_run s)

        limit : ℕ
        limit = allowance config backend eth args.dry_run

        grown :
            (k : ℕ)
            → k ≡ rounds args n
            → Grows P
                (rounds args n * limit)
                s.sent
                (run_cycles config backend eth k readers args.dry_run s).sent
        grown k e =
            subst
              (λ m.
                Grows P (m * limit) s.sent
                  (run_cycles config backend eth k readers args.dry_run s).sent)
              e
              (weaken (AdvisedIn config backend eth k readers args.dry_run s) P (k * limit) _ _
                (λ t h.
                  justified t
                    (subst (λ m. AdvisedIn config backend eth m readers args.dry_run s t) e h))
                (run_cycles-Emits config backend eth k readers args.dry_run s))

        by_flag : (b : Bool) → args.once ≡ b → IsGuarded P args n s (served b)
        by_flag true once = ended-IsGuarded args n s _ _ once (grown 1 (rw once refl))
        by_flag false once = (grown n (rw once refl), λ code h. cc, λ h. cc)

    open_reader-IsGuarded :
        (args : Args) (n : ℕ) (readers : Result (List (Reader F W))) (s : Agent F W)
        → ((rs : List (Reader F W))
            → readers ≡ ok rs
            → (t : Submission)
            → AdvisedIn config backend eth
                (rounds args n)
                rs
                args.dry_run
                (record s { prev_tvl = [] })
                t
            → P t)
        → IsGuarded P args n s
            (open_reader config backend eth node default_readers args n readers s)
    unfolding open_reader
    open_reader-IsGuarded args n (ok readers) s justified =
        serve-IsGuarded args n readers (record s { prev_tvl = [] }) (justified readers refl)
    open_reader-IsGuarded args n (raised e) s justified = stopped-IsGuarded args n s s e refl

    -- What the cycles from this world on advise has the property.
    abbrev Justifies : Args → ℕ → Agent F W → W → Type 0
    Justifies args n s w =
        (rs : List (Reader F W))
        → default_readers ≡ ok rs
        → (t : Submission)
        → AdvisedIn config backend eth (rounds args n) rs args.dry_run
            (record s { prev_tvl = []; world = w }) t
        → P t

    log_block-IsGuarded :
        (args : Args) (n : ℕ) (s : Agent F W) (answer : Result ℕ × W)
        → Justifies args n s answer.1
        → IsGuarded P args n s (log_block config backend eth node default_readers args n s answer)
    unfolding log_block
    log_block-IsGuarded args n s (ok number, w) justified =
        open_reader-IsGuarded args n default_readers (record s { world = w }) justified
    log_block-IsGuarded args n s (raised e, w) justified =
        stopped-IsGuarded args n s (record s { world = w }) e refl

    log_chain-IsGuarded :
        (args : Args) (n : ℕ) (s : Agent F W) (answer : Result ℕ × W)
        → Justifies args n s (node.block_number answer.1).1
        → IsGuarded P args n s (log_chain config backend eth node default_readers args n s answer)
    unfolding log_chain
    log_chain-IsGuarded args n s (ok id, w) justified =
        log_block-IsGuarded args n s (node.block_number w) justified
    log_chain-IsGuarded args n s (raised e, w) justified =
        stopped-IsGuarded args n s (record s { world = w }) e refl

  connect-IsGuarded :
      (args : Args) (n : ℕ) (s : Agent F W)
      → IsGuarded
          (IsJustified args n s)
          args
          n
          s
          (connect config backend eth node default_readers args n s)
  unfolding connect
  connect-IsGuarded args n s = by_answer (node.is_connected s.world).0
    where
      next : Agent F W
      next = record s { world = (node.is_connected s.world).1 }

      by_answer :
          (b : Bool)
          → IsGuarded (IsJustified args n s) args n s (
              if b
              then log_chain config backend eth node default_readers args n next
                  (node.chain_id next.world)
              else (exited 1, next))
      by_answer true =
          log_chain-IsGuarded (IsJustified args n s) args n next (node.chain_id next.world)
            (λ readers e t advised. (readers, e, advised))
      by_answer false = exited-IsGuarded (IsJustified args n s) args n s next refl

  -- Without its settings the program, once its arguments are parsed, exits with code 1 and makes no
  -- call at all. With any arguments that it accepted it exits only with code 1 and before it sent
  -- anything, and comes back only with `--once`. It hands the chain only transactions that one of
  -- its cycles, started after the connection with the readers it has made, advised on what that
  -- cycle read: none in a dry run, and otherwise at most NONCE_RETRY_LIMIT for its one check or for
  -- each cycle of its loop.
  pub main-IsGuarded :
      (args : Args) (n : ℕ) (s : Agent F W)
      → let ran = main config backend eth node default_readers args n s in
        IsGuarded (IsJustified args n s) args n s ran
        × (is_configured config ≡ false → ran ≡ (exited 1, s))
  unfolding main
  main-IsGuarded args n s = by_settings (is_configured config)
    where
      by_settings :
          (b : Bool)
          → let ran =
              if b
              then connect config backend eth node default_readers args n s
              else (exited 1, s) in
            IsGuarded (IsJustified args n s) args n s ran × (b ≡ false → ran ≡ (exited 1, s))
      by_settings true = (connect-IsGuarded args n s, λ h. cc)
      by_settings false = (exited-IsGuarded (IsJustified args n s) args n s s refl, λ h. refl)
