-- ===== src/Mempool/Submit.antt =====
-- What reaches the relay, and what a submission returns.
use event_time_mcdm_agent.Common.{
  ℕ, ◌≡◌, ◌≢◌, refl, ◌∷◌, String, Text, Bool, true, false, Result, ok, raised, ◌⊎◌, inl, inr, arith,
  ok_injective, subst, string_eq,
}
use event_time_mcdm_agent.Common.Exec.{lift, bind, bind-eq-ok, continue}
use event_time_mcdm_agent.Float.{Float}
use event_time_mcdm_agent.Mempool.{
  Json, truthy, FlashbotsMempool, Post, RelayPorts, Net, on_net, parse_answer, new_mempool,
  hand_over, deliver, build_post, submit_private_tx, with_0x, null, boolean, integer, text, array,
  object,
}

-- An answer that is taken is not empty.
parse_answer-truthy : (payload v : Json) → parse_answer payload ≡ ok v → truthy v ≡ true
unfolding parse_answer
parse_answer-truthy null v h = cc
parse_answer-truthy (boolean b) v h = cc
parse_answer-truthy (integer n) v h = cc
parse_answer-truthy (text t) v h = cc
parse_answer-truthy (array a) v h = cc
parse_answer-truthy (object answer) v h = ground arith

module _ {R W : Type 0} (ports : RelayPorts R W) where
  pub new_mempool_lem :
      (auth_key wallet_key vault_addr : String) (dry_run : Bool) (offset : ℕ) (c : FlashbotsMempool)
      → new_mempool ports auth_key wallet_key vault_addr dry_run offset ≡ ok c
      → (c.auth_address ≢ c.wallet_address)
        × (ports.address_of auth_key ≡ ok c.auth_address)
        × (ports.address_of wallet_key ≡ ok c.wallet_address)
        × (c.dry_run ≡ dry_run)
  unfolding new_mempool
  new_mempool_lem auth_key wallet_key vault_addr dry_run offset c h =
      ground (arith, string_eq.same_iff c.auth_address c.wallet_address)

  module _ (client : FlashbotsMempool) where
    -- The header names the auth address, and its signature is by the auth key over the body.
    abbrev pub IsAuthentic : Post → Type 0
    IsAuthentic post =
        (post.header_address ≡ client.auth_address)
        × (signature : Text) × (ports.sign_body post.body client.auth_key ≡ ok signature)
        × (post.header_signature ≡ with_0x signature)

    -- Nothing was posted, or the client is live and one authentic post was.
    abbrev pub Posts : Net W → Net W → Type 0
    Posts s s' =
        (s'.posted ≡ s.posted)
        ⊎ ((client.dry_run ≡ false)
            × (post : Post) × (s'.posted ≡ post ∷ s.posted)
            × IsAuthentic post)

    answered :
        (r : Result Json) (s : Net W)
        → (continue r (λ payload. lift (parse_answer payload)) s).1.posted ≡ s.posted
    answered (ok payload) s = refl
    answered (raised e) s = refl

    deliver-Posts :
        (b : Bool) (post : Post) (s : Net W)
        → client.dry_run ≡ b
        → IsAuthentic post
        → Posts s (deliver ports b post s).1
    unfolding deliver hand_over bind
    deliver-Posts true post s e h = inl refl
    deliver-Posts false post s e h =
        inr (e, post, answered (ports.post post s.world).0 (hand_over ports post s).1, h)

    pub built-Posts :
        (r : Result Post) (s : Net W)
        → ((post : Post) → r ≡ ok post → IsAuthentic post)
        → Posts s (continue r (deliver ports client.dry_run) s).1
    built-Posts (ok post) s h = deliver-Posts client.dry_run post s refl (h post refl)
    built-Posts (raised e) s h = inl refl

    -- Only what was posted can be taken by the relay.
    delivered-Posted :
        (r : Result Post) (s : Net W) (answer : Json)
        → client.dry_run ≡ false
        → (continue r (deliver ports client.dry_run) s).0 ≡ ok answer
        → (post : Post) × (r ≡ ok post)
          × ((continue r (deliver ports client.dry_run) s).1.posted ≡ post ∷ s.posted)
    unfolding deliver hand_over bind
    delivered-Posted (raised e) s answer live h = cc
    delivered-Posted (ok post) s answer live h =
        (post, refl, rw live (answered (ports.post post s.world).0 _))

  module _ {F : Type 0} ⦃f : Float F⦄ (client : FlashbotsMempool) where
    build_post-IsAuthentic :
        (gas : F) (w : W) (post : Post)
        → (build_post ports client gas w).0 ≡ ok post
        → IsAuthentic client post
    unfolding build_post
    build_post-IsAuthentic gas w post h =
        let (nonce, e1, h1) = bind-eq-ok _ _ _ h in
        let (raw, e2, h2) = bind-eq-ok _ _ _ h1 in
        let (block, e3, h3) = bind-eq-ok _ _ _ h2 in
        let (signature, e4, h4) = bind-eq-ok _ _ _ h3 in
        subst (IsAuthentic client) (ok_injective _ _ h4) (refl, signature, e4, refl)

    -- A submission posts at most once, and not at all in a dry run; what it posts names the auth
    -- address and is signed by the auth key.
    pub submit_private_tx-Posts :
        (gas : F) (s : Net W) → Posts client s (submit_private_tx ports client gas s).1
    unfolding submit_private_tx bind
    submit_private_tx-Posts gas s =
        built-Posts client (build_post ports client gas s.world).0
          (on_net (build_post ports client gas) s).1
          (λ post. build_post-IsAuthentic gas s.world post)

    -- The relay took a transaction of a live client only if it was posted.
    pub submit_private_tx-Posted :
        (gas : F) (s : Net W) (answer : Json)
        → client.dry_run ≡ false
        → (submit_private_tx ports client gas s).0 ≡ ok answer
        → (post : Post) × ((submit_private_tx ports client gas s).1.posted ≡ post ∷ s.posted)
    unfolding submit_private_tx bind
    submit_private_tx-Posted gas s answer live h =
        let (post, made, posted) =
          delivered-Posted client (build_post ports client gas s.world).0
            (on_net (build_post ports client gas) s).1 answer live h in
        (post, posted)
