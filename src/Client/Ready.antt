-- ===== src/Client/Ready.antt =====
-- What holds of the accounts of the fulfillers when `NewOrderClient` returns.
use eibc_client.Accounts.Chain.{account_exists, has_fee_granted}
use eibc_client.Base.{
  ℕ, zero, suc, ◌+◌, ◌≡◌, refl, ap, ◌∙◌, subst, Bool, true, false, ◌||◌, List, [], ◌∷◌, ◌++◌, some,
  String, str_eq, ok, >>=-eq-ok, ok-injective, or_panic, get_elem?, length, length-append,
  contains_key, contains_key-append, All, All-map, All-append, Bool-cases, ◌⊎◌, inl, inr, arith,
  eq_refl,
}
use eibc_client.Base.Int.{pos_part}
use eibc_client.Base.Map.{lookup, insert, lookup-insert}
use eibc_client.Client.{
  World, Setup, setup_fulfiller, setup_fulfillers, with_account, when_absent, decoded, connected,
}
use eibc_client.Config.{Config, get_cosmos_client_options}
use eibc_client.Fulfiller.{OrderFulfiller, wrapped, wrapped-ok, new_order_fulfiller}
use eibc_client.Sdk.{Sdk}
use eibc_client.Startup.{fulfiller_client_cfg}
use eibc_client.Types.{Account}

contains_key-when_absent :
    ⦃S : Sdk⦄ (b : Bool) (a x : String) (as_ : List String)
    → contains_key x as_ ≡ true
    → contains_key x (when_absent b a as_) ≡ true
contains_key-when_absent true a x as_ h = h
contains_key-when_absent false a x as_ h = rw (contains_key-append x as_ (a ∷ []), h) refl

when_absent_added :
    ⦃S : Sdk⦄ (b : Bool) (a : String) (as_ : List String)
    → (b ≡ true) ⊎ (contains_key a (when_absent b a as_) ≡ true)
when_absent_added true a as_ = inl refl
when_absent_added false a as_ = inr (ground (arith, contains_key-append a as_ (a ∷ []), eq_refl a))

module _ ⦃S : Sdk⦄ (w : World) (cfg : Config) (operator : String) where
  -- The loop has a fulfiller for the account, and takes care of what the chain does not have of it.
  unfoldable pub IsSetUp : Setup → Account → Type 0
  IsSetUp s a =
      ((account_exists w.chain a.address ≡ ok true) ⊎ (contains_key a.address s.prime_addrs ≡ true))
      × ((has_fee_granted w.chain operator a.address ≡ ok true)
          ⊎ (contains_key a.address s.grantee_addrs ≡ true))
      × ((f : OrderFulfiller) × (lookup a.name s.fulfillers ≡ some f))

  abbrev new_fulfiller : Account → OrderFulfiller
  new_fulfiller acc =
      new_order_fulfiller acc operator cfg.fulfillers.policy_address
        (pos_part cfg.fulfillers.max_orders_per_tx)

  insert_keeps :
      (k j : String) (f : OrderFulfiller) (s : Setup)
      → (g : OrderFulfiller) × (lookup j s.fulfillers ≡ some g)
      → (g : OrderFulfiller) × (lookup j (insert k f s.fulfillers) ≡ some g)
  insert_keeps k j f s (g, h) = elim (Bool-cases (str_eq k j)) [
    | inl e ↦ (f, rw (lookup-insert k j f s.fulfillers, e) refl)
    | inr e ↦ (g, rw (lookup-insert k j f s.fulfillers, e) h)
  ]

  with_account_keeps :
      (acc : Account) (exist granted : Bool) (s : Setup) (a : Account)
      → IsSetUp s a
      → IsSetUp (with_account w cfg operator acc exist granted s) a
  unfolding IsSetUp
  with_account_keeps acc exist granted s a (x, y, z) = (
    elim x [
      | inl p ↦ inl p
      | inr p ↦ inr (contains_key-when_absent exist acc.address a.address s.prime_addrs p)
    ],
    elim y [
      | inl p ↦ inl p
      | inr p ↦ inr (contains_key-when_absent granted acc.address a.address s.grantee_addrs p)
    ],
    insert_keeps acc.name a.name _ s z,
  )

  with_account_set :
      (acc : Account) (exist granted : Bool) (s : Setup)
      → account_exists w.chain acc.address ≡ ok exist
      → has_fee_granted w.chain operator acc.address ≡ ok granted
      → IsSetUp (with_account w cfg operator acc exist granted s) acc
  unfolding IsSetUp
  with_account_set acc exist granted s e g = (
    elim (when_absent_added exist acc.address s.prime_addrs) [
      | inl p ↦ inl (e ∙ ap ok p)
      | inr p ↦ inr p
    ],
    elim (when_absent_added granted acc.address s.grantee_addrs) [
      | inl p ↦ inl (g ∙ ap ok p)
      | inr p ↦ inr p
    ],
    (new_fulfiller acc, rw (lookup-insert, eq_refl acc.name) refl),
  )

  setup_fulfiller-IsSetUp :
      (i : ℕ) (acc : Account) (s s' : Setup)
      → setup_fulfiller w cfg operator i acc s ≡ ok s'
      → All (IsSetUp s) s.active_accs
      → All (IsSetUp s') s'.active_accs × (s'.active_accs ≡ s.active_accs ++ acc ∷ [])
  unfolding setup_fulfiller
  setup_fulfiller-IsSetUp i acc s s' e h =
      let (exist, e1, r1) =
        >>=-eq-ok
          (wrapped "failed to check if fulfiller account exists: "
            (account_exists w.chain acc.address))
          _ e in
      let (granted, e2, r2) =
        >>=-eq-ok
          (wrapped "failed to check if fee is granted: "
            (has_fee_granted w.chain operator acc.address))
          _ r1 in
      let (_, e3, r3) = >>=-eq-ok (decoded (granted || w.chain.is_bech32 acc.address)) _ r2 in
      let (_, e4, r4) =
        >>=-eq-ok
          (connected
            (w.new_client (7 + i) (get_cosmos_client_options (fulfiller_client_cfg cfg operator)))
            "failed to create cosmos client for fulfiller: ")
          _ r3 in
      subst (λ z. All (IsSetUp z) z.active_accs × (z.active_accs ≡ s.active_accs ++ acc ∷ []))
        (ok-injective r4)
        (
          All-append _ s.active_accs (acc ∷ [])
              (All-map s.active_accs (with_account_keeps acc exist granted s) h)
              (
                with_account_set acc exist granted s
                    (wrapped-ok "failed to check if fulfiller account exists: " _ exist e1)
                    (wrapped-ok "failed to check if fee is granted: " _ granted e2),
                tt,
              ),
          refl,
        )

  pub setup_fulfillers-IsSetUp :
      (accs : List Account) (n i : ℕ) (s s' : Setup)
      → setup_fulfillers w cfg operator accs n i s ≡ ok s'
      → All (IsSetUp s) s.active_accs
      → All (IsSetUp s') s'.active_accs × (length s'.active_accs ≡ n + length s.active_accs)
  unfolding setup_fulfillers
  setup_fulfillers-IsSetUp accs zero i s s' e h =
      subst (λ z. All (IsSetUp z) z.active_accs × (length z.active_accs ≡ 0 + length s.active_accs))
        (ok-injective e) (h, omega arith)
  setup_fulfillers-IsSetUp accs (suc n) i s s' e h =
      let (acc, e1, r1) = >>=-eq-ok (or_panic (get_elem? accs i)) _ e in
      let (t, e2, r2) = >>=-eq-ok (setup_fulfiller w cfg operator i acc s) _ r1 in
      let (k, m) = setup_fulfiller-IsSetUp i acc s t e2 h in
      let (k', m') = setup_fulfillers-IsSetUp accs n (suc i) t s' r2 k in
      (k', m' ∙ rw (m, length-append s.active_accs (acc ∷ [])) (omega arith))
