-- ===== src/Token/Capabilities/Refinement.antt =====
-- The token service against its specification, call by call.
use agentguard_action_proxy.Common.{
  ℕ, ◌+◌, ◌*◌, String, ◌≡◌, refl, inl, inr, true, false, Bool-cases, Option, none, some, List, [],
  ◌∷◌, ◌==◌, arith, eq_iff,
}
use agentguard_action_proxy.Common.Dict.{lookup, insert, lookup-insert}
use agentguard_action_proxy.Js.{Js}
use agentguard_action_proxy.Models.{ActionRequest, EphemeralExecutionToken}
use agentguard_action_proxy.Fingerprint.{action_fingerprint}
use agentguard_action_proxy.Token.{
  TokenService, fingerprint_differs, new_token, issue, mark_used, validate_for_execution, clear,
}
use agentguard_action_proxy.Token.Acceptance.{
  Permits, validate_iff, validate-accepted, validate-refused,
}
use agentguard_action_proxy.Token.Capabilities.{
  Capability, absent, spent, live, Capabilities, Call, grant, redeem, forget, agrees, redeems,
  none_at_all, put, promised, given,
}

-- The fingerprint of an action is not the empty text.
abbrev pub HasFingerprints : (js : Js) → Type 0
HasFingerprints js = (a : ActionRequest js) → (action_fingerprint a == "") ≡ false

module _ {js : Js} where
  -- The capability that an entry of the store stands for.
  pub data Represents : Option (EphemeralExecutionToken js) → Capability js → Type 0 where
    no_token : Represents none absent
    used_up : {t : EphemeralExecutionToken js} → t.used ≡ true → Represents (some t) spent
    unused :
        (now : ℕ) (uuid : String) (a : ActionRequest js) (ttl : ℕ)
        → Represents (some (new_token now uuid a ttl)) (live (now + ttl * 1000) a)

  abbrev Simulates : TokenService js → Capabilities js → Type 0
  Simulates tokens state = (k : String) → Represents (lookup k tokens) (state k)

  Represents-put :
      (set : String) (t : EphemeralExecutionToken js) (c : Capability js) (tokens : TokenService js)
      (state : Capabilities js)
      → Represents (some t) c
      → Simulates tokens state
      → Simulates (insert set t tokens) (put set c state)
  unfolding put
  Represents-put set t c tokens state new old k =
      rw (lookup-insert set k t tokens)
        (elim (Bool-cases (set == k)) [ inl same ↦ rw same new | inr other ↦ rw other (old k) ])

  module _ (digests : HasFingerprints js) where
    module _ (issued : ℕ) (uuid : String) (a : ActionRequest js) (ttl now : ℕ)
        (b : ActionRequest js) where
      new_token-redeems :
          Permits now (new_token issued uuid a ttl) b
          → redeems now b (live (issued + ttl * 1000) a) ≡ true
      unfolding redeems agrees new_token fingerprint_differs
      new_token-redeems p = ground (
        arith,
        eq_iff a.action_id b.action_id,
        eq_iff a.action_type b.action_type,
        eq_iff a.target_resource b.target_resource,
        digests a,
      )

      redeems-new_token :
          redeems now b (live (issued + ttl * 1000) a) ≡ true
          → Permits now (new_token issued uuid a ttl) b
      unfolding redeems agrees new_token fingerprint_differs
      redeems-new_token h = ground (
        arith,
        eq_iff a.action_id b.action_id,
        eq_iff a.action_type b.action_type,
        eq_iff a.target_resource b.target_resource,
        digests a,
      )

    Permits-redeems :
        {o : Option (EphemeralExecutionToken js)} {c : Capability js} (now : ℕ)
        (b : ActionRequest js) (t : EphemeralExecutionToken js)
        → Represents o c
        → o ≡ some t
        → Permits now t b
        → redeems now b c ≡ true
    Permits-redeems now b t no_token e p = cc
    Permits-redeems now b t (used_up u) e p = cc (p.fresh)
    Permits-redeems now b t (unused issued uuid a ttl) e p =
        let same : t ≡ new_token issued uuid a ttl = cc in
        new_token-redeems issued uuid a ttl now b (rw same at p)

    redeems-Permits :
        {o : Option (EphemeralExecutionToken js)} {c : Capability js} (now : ℕ)
        (b : ActionRequest js)
        → Represents o c
        → redeems now b c ≡ true
        → (t : EphemeralExecutionToken js) × (o ≡ some t) × Permits now t b
    unfolding redeems
    redeems-Permits now b no_token h = cc
    redeems-Permits now b (used_up u) h = cc
    redeems-Permits now b (unused issued uuid a ttl) h =
        (new_token issued uuid a ttl, refl, redeems-new_token issued uuid a ttl now b h)

    -- One redemption: the verdict is the promised one, and the state that is left is too.
    module _ (now : ℕ) (token_id : String) (b : ActionRequest js) (tokens : TokenService js)
        (state : Capabilities js) (sim : Simulates tokens state) where
      data Redemption : Type 0 where
        succeeds :
            (validate_for_execution now token_id b tokens).valid ≡ true
            → redeems now b (state token_id) ≡ true
            → Simulates
                (validate_for_execution now token_id b tokens).tokens
                (put token_id spent state)
            → Redemption
        fails :
            (validate_for_execution now token_id b tokens).valid ≡ false
            → redeems now b (state token_id) ≡ false
            → Simulates (validate_for_execution now token_id b tokens).tokens state
            → Redemption

      accepted : (validate_for_execution now token_id b tokens).valid ≡ true → Redemption
      unfolding mark_used
      accepted valid =
          let (t, listed, permits, after) = validate-accepted now token_id b tokens valid in
          succeeds valid (Permits-redeems now b t (sim token_id) listed permits)
            (rw after (Represents-put token_id (mark_used t) spent tokens state (used_up refl) sim))

      rejected : (validate_for_execution now token_id b tokens).valid ≡ false → Redemption
      rejected invalid =
          fails invalid
            (elim (Bool-cases (redeems now b (state token_id))) [
              | inl kept_promise ↦ cc (
                  (validate_iff now token_id b tokens).1
                    (redeems-Permits now b (sim token_id) kept_promise))
              | inr broken ↦ broken
            ])
            (rw (validate-refused now token_id b tokens invalid) sim)

      redemption : Redemption
      redemption = elim (Bool-cases (validate_for_execution now token_id b tokens).valid) [
        | inl valid ↦ accepted valid
        | inr invalid ↦ rejected invalid
      ]

    given-promised :
        (calls : List (Call js)) (tokens : TokenService js) (state : Capabilities js)
        → Simulates tokens state
        → given calls tokens ≡ promised calls state
    unfolding given promised
    given-promised [] tokens state sim = refl
    given-promised (grant now uuid a ttl ∷ calls) tokens state sim = given-promised calls _ _ (
        unfold issue in
        Represents-put uuid (new_token now uuid a ttl) _ tokens state (unused now uuid a ttl) sim)
    given-promised (redeem now token_id b ∷ calls) tokens state sim =
        elim (redemption now token_id b tokens state sim) [
          | succeeds valid owed after ↦ rw (valid, owed) (cc (given-promised calls _ _ after))
          | fails invalid unowed after ↦ rw (invalid, unowed) (cc (given-promised calls _ _ after))
        ]
    given-promised (forget ∷ calls) tokens state sim =
        given-promised calls _ _ (unfold clear lookup in λ k. no_token)

    -- For every sequence of issues, validations and resets, from the empty store, the service accepts
    -- and refuses exactly as the specification promises: a token id is good for one use, until its
    -- deadline, for an action that agrees with the one it was issued for in its id, type, target, loan
    -- amount and fingerprint. No fingerprint may be the empty text, which would count as no fingerprint.
    pub refines : (calls : List (Call js)) → given calls [] ≡ promised calls none_at_all
    refines calls = given-promised calls [] none_at_all (unfold lookup in λ k. no_token)
