-- ===== src/Smoke.antt =====
-- agent/scripts/flashbots_smoke.py: the exit code of the smoke check. Python's `str.lower` on an
-- address is a parameter.
pub mod Exit
mod Tests
use event_time_mcdm_agent.Common.{
  ℕ, ◌≡◌, ◌≢◌, refl, String, Text, List, [], ◌∷◌, Bool, true, false, not, Result, ok, raised,
  if◌then◌else◌, ◌==◌, string_eq, nat_beq, ◌&&◌, ◌^◌, Option, none, some,
}
use event_time_mcdm_agent.Common.Exec.{Exec, pure, lift, ◌>>=◌, ◌>>◌}
use event_time_mcdm_agent.Float.{Float}
use event_time_mcdm_agent.Common.Dict.{Dict}
use event_time_mcdm_agent.PerBlockLoop.{BlockState}
use event_time_mcdm_agent.Mempool.{
  Json, null, boolean, integer, text, array, object, get, truthy, RelayPorts, Net, on_net,
  new_mempool, submit_private_tx,
}

unfoldable pub same_text : Text → Text → Bool
same_text [] [] = true
same_text (c ∷ cs) (d ∷ ds) = nat_beq c d && same_text cs ds
same_text _ _ = false

-- result.get("status") == "dry_run"
unfoldable pub is_dry_run : Json → Bool
is_dry_run (text t) = same_text t (b'd' ∷ b'r' ∷ b'y' ∷ b'_' ∷ b'r' ∷ b'u' ∷ b'n' ∷ [])
is_dry_run _ = false

-- How the result of the submission is judged.
unfoldable pub exit_code : Json → ℕ
exit_code (object result) =
    if not (is_dry_run (get "status" result))
    then 5
    else if not (truthy (get "txhash" result))
    then 6
    else 0
exit_code _ = 4

-- The flags, each of which is required, as argparse takes them.
pub record SmokeArgs : Type 0 where
  pub auth_key : String
  pub wallet_key : String
  pub rpc_url : String

-- What argparse makes of the arguments: it prints the help, or refuses them, and ends the script
-- itself, or it has the flags.
pub data Parsed : Type 0 where
  asks_help : Parsed
  refused : Parsed
  parsed : SmokeArgs → Parsed

abbrev protos : List String
protos = "aave_v3" ∷ "compound_v3" ∷ "spark" ∷ "morpho" ∷ "fluid" ∷ "euler" ∷ []

-- {p: value for p in protos}
abbrev same_for : {F : Type 0} → F → List String → Dict String F
same_for value [] = []
same_for value (p ∷ ps) = (p, value) ∷ same_for value ps

-- `_dummy_state`, at a time.
unfoldable pub dummy_state : {F : Type 0} → Float F → ℕ → ℕ → BlockState F
dummy_state f now block_number = record {
  block_number = block_number;
  block_timestamp = now;
  protocols = protos;
  lending_apr = same_for (f.ratio 4 100) protos;
  utilization = same_for (f.ratio 70 100) protos;
  tvl_usd = same_for (f.ratio (10 ^ 9) 1) protos;
  current_protocol = some "aave_v3";
  position_usd = f.ratio 1000000 1;
  gas_price_gwei = f.ratio 25 1;
  eth_price_usd = f.ratio 3500 1;
  gas_used_estimate = 200000;
}

-- `new_state` is the check that the constructor of BlockState makes, `utcnow` the reading of the
-- clock.
module _ {R W : Type 0} (ports : RelayPorts R W) (lower : String → String) (F : Type 0)
    ⦃f : Float F⦄ (utcnow : W → ℕ × W) (new_state : BlockState F → Result (Unit {0})) where
  abbrev clock : Exec (Net W) ℕ
  clock s = (ok (utcnow s.world).0, record s { world = (utcnow s.world).1 })

  -- What follows the check of the addresses.
  unfoldable pub check_submission : (auth_key wallet_key : String) → Exec (Net W) ℕ
  check_submission auth_key wallet_key = do
    client ←
        lift (
          new_mempool ports auth_key wallet_key "0x000000000000000000000000000000000000dEaD" true
            25)
    block_number ← on_net ports.block_number
    now ← clock
    let state = dummy_state f now block_number
    lift (new_state state)
    result ← submit_private_tx ports client state.gas_price_gwei
    pure (exit_code result)

  -- `_run`, after the client has said whether it is connected.
  unfoldable pub smoke_run : Bool → (auth_key wallet_key : String) → Exec (Net W) ℕ
  smoke_run false auth_key wallet_key = pure 2
  smoke_run true auth_key wallet_key = do
    auth ← lift (ports.address_of auth_key)
    wallet ← lift (ports.address_of wallet_key)
    if lower auth == lower wallet then pure 3 else check_submission auth_key wallet_key

  -- An exception ends the script with status 1.
  abbrev pub status : Result ℕ → ℕ
  status (ok code) = code
  status (raised e) = 1

  -- `main`: argparse ends the script with status 0 after the help, and with 2 if it refuses the
  -- arguments. `connects` says whether the URL can be reached.
  unfoldable pub smoke_main : (String → Bool) → Parsed → Net W → ℕ × Net W
  smoke_main connects asks_help s = (0, s)
  smoke_main connects refused s = (2, s)
  smoke_main connects (parsed args) s =
      let (r, s') = smoke_run (connects args.rpc_url) args.auth_key args.wallet_key s in
      (status r, s')
