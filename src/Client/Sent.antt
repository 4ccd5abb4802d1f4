-- ===== src/Client/Sent.antt =====
-- What the messages that `NewOrderClient` sends do for the accounts of the fulfillers.
use eibc_client.Accounts.Chain.{
  account_exists, has_fee_granted, prime_accounts, add_fee_grant_to_fulfiller,
}
use eibc_client.Accounts.Chain.Confirmed.{
  is_paid, is_granted, IsMember, HasSettled, prime_accounts-ok, add_fee_grant_to_fulfiller-ok,
  add_fulfillers_to_group-ok,
}
use eibc_client.Base.{
  ◌≡◌, true, List, [], ◌∷◌, some, String, Result, ok, >>=-eq-ok, is_empty, contains_key, All,
  All-map, All-and, ◌⊎◌, inl, inr, arith, eq_refl, if◌then◌else◌,
}
use eibc_client.Base.Map.{lookup}
use eibc_client.Client.{World, Setup, send_setup}
use eibc_client.Client.Ready.{IsSetUp}
use eibc_client.Config.{Config}
use eibc_client.Fulfiller.{OrderFulfiller, wrapped, wrapped-ok}
use eibc_client.Sdk.{Sdk}
use eibc_client.Startup.Members.{has_address}
use eibc_client.Types.{Account}

has_address-All : (xs : List Account) → All (λ a. has_address a.address xs ≡ true) xs
has_address-All [] = tt
has_address-All (x ∷ xs) =
    (ground (arith, eq_refl x.address), All-map xs (λ a h. ground arith) (has_address-All xs))

module _ ⦃S : Sdk⦄ (w : World) (cfg : Config) (operator : String) where
  -- The account exists or was sent coins, has an allowance of the operator or was given one, and is
  -- in the group or was put into it, each by a transaction that the operator broadcast and that
  -- succeeded; and it has a fulfiller.
  abbrev pub IsReady : Setup → Account → Type 0
  IsReady s a =
      let name = cfg.operator.account_name in
      ((account_exists w.chain a.address ≡ ok true) ⊎ HasSettled w.chain name (is_paid a.address))
      × ((has_fee_granted w.chain operator a.address ≡ ok true)
          ⊎ HasSettled w.chain name (is_granted operator a.address))
      × IsMember w.chain name cfg.operator.group_id a.address
      × ((f : OrderFulfiller) × (lookup a.name s.fulfillers ≡ some f))

  -- a step that is left out for no addresses, for an address that there is
  unless_empty :
      (as_ : List String) (r : Result (Unit {0})) (u : Unit {0}) (a : String)
      → (if is_empty as_ then ok tt else r) ≡ ok u
      → contains_key a as_ ≡ true
      → r ≡ ok u
  unless_empty [] r u a e h = absurd (cc)
  unless_empty (x ∷ as_) r u a e h = e

  pub send_setup-IsReady :
      (s : Setup) (u : Unit {0})
      → send_setup w cfg operator s ≡ ok u
      → All (IsSetUp w cfg operator s) s.active_accs
      → All (IsReady s) s.active_accs
  unfolding send_setup IsSetUp
  send_setup-IsReady s u e h =
      let name = cfg.operator.account_name in
      let (u1, e1, r1) =
        >>=-eq-ok
          (if is_empty s.prime_addrs
            then ok tt
            else wrapped "failed to prime fulfiller account: "
                (prime_accounts w.chain name operator s.prime_addrs))
          _ e in
      let (u2, e2, e3) =
        >>=-eq-ok
          (if is_empty s.grantee_addrs
            then ok tt
            else wrapped "failed to add grant to fulfiller: "
                (add_fee_grant_to_fulfiller w.chain name operator s.grantee_addrs))
          _ r1 in
      All-map s.active_accs
        (λ a ((x, y, z), t). (
          elim x [
            | inl p ↦ inl p
            | inr p ↦ inr (
                prime_accounts-ok w.chain name operator s.prime_addrs u1 a.address
                  (wrapped-ok "failed to prime fulfiller account: " _ u1
                    (unless_empty s.prime_addrs _ u1 a.address e1 p))
                  p)
          ],
          elim y [
            | inl p ↦ inl p
            | inr p ↦ inr (
                add_fee_grant_to_fulfiller-ok w.chain name operator s.grantee_addrs u2 a.address
                  (wrapped-ok "failed to add grant to fulfiller: " _ u2
                    (unless_empty s.grantee_addrs _ u2 a.address e2 p))
                  p)
          ],
          add_fulfillers_to_group-ok w.chain name operator cfg.operator.group_id s.active_accs u
              a.address e3 t,
          z,
        ))
        (All-and _ _ s.active_accs h (has_address-All s.active_accs))
