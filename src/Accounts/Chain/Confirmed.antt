-- ===== src/Accounts/Chain/Confirmed.antt =====
-- What the chain has confirmed when a function that broadcasts returns.
use eibc_client.Accounts.{reply, received, received-ok}
use eibc_client.Accounts.Chain.{
  AccountChain, AccountMsg, multi_send, grant_allowance, update_group_members, confirmed,
  outputs_to, send_coins_multi, prime_accounts, add_fee_grant_to_fulfiller, add_fulfillers_to_group,
  grants_to, broadcast,
}
use eibc_client.Base.{
  ℕ, ◌≡◌, refl, ap, subst, Bool, true, false, ◌||◌, ◌&&◌, ◌==◌, eq_refl, List, [], ◌∷◌, String,
  str_eq, ok, >>=-eq-ok, ok-injective, or_panic, contains_key, Bool-cases, Option-cases, ◌⊎◌, inl,
  inr, arith, length,
}
use eibc_client.Fulfiller.Authorized.{Confirms, wait_for_tx_ok}
use eibc_client.Fulfiller.{TxResponse, wait_for_tx, wrapped, wrapped-ok}
use eibc_client.Sdk.{Sdk, Coins}
use eibc_client.Startup.{MemberRequest, is_member, member_updates}
use eibc_client.Startup.Members.{has_address, member_updates_members, member_updates-none}
use eibc_client.Types.{Account}

module _ ⦃S : Sdk⦄ where
  abbrev pub is_output : String → List (String × Coins) → Bool
  is_output a [] = false
  is_output a (o ∷ os) = str_eq o.0 a || is_output a os

  -- whether a message sends coins to the address
  abbrev pub is_paid : String → List AccountMsg → Bool
  is_paid a [] = false
  is_paid a (multi_send from input outputs ∷ msgs) = is_output a outputs || is_paid a msgs
  is_paid a (_ ∷ msgs) = is_paid a msgs

  -- whether a message gives the address an allowance of the granter
  abbrev pub is_granted : String → String → List AccountMsg → Bool
  is_granted granter a [] = false
  is_granted granter a (grant_allowance g b ∷ msgs) =
      str_eq g granter && str_eq b a || is_granted granter a msgs
  is_granted granter a (_ ∷ msgs) = is_granted granter a msgs

  -- whether a message has the address among the members of the group
  abbrev pub is_added : ℕ → String → List AccountMsg → Bool
  is_added group a [] = false
  is_added group a (update_group_members admin g members ∷ msgs) =
      g == group && is_member a members || is_added group a msgs
  is_added group a (_ ∷ msgs) = is_added group a msgs

  module _ (c : AccountChain) where
    -- The messages were broadcast under the name, and the first answer to the queries for the
    -- transaction that is no error is one of success.
    pub record Settled (name : String) (msgs : List AccountMsg) : Type 0 where
      pub hash : String
      pub sent : c.broadcast_tx name msgs ≡ reply hash
      pub resp : TxResponse
      pub confirms : Confirms (c.get_tx hash) resp

    confirmed-Settled :
        (name : String) (msgs : List AccountMsg) (hash : String) (u : Unit {0})
        → c.broadcast_tx name msgs ≡ reply hash
        → confirmed c hash ≡ ok u
        → Settled name msgs
    unfolding confirmed
    confirmed-Settled name msgs hash u sent e =
        let (resp, a, _) =
          >>=-eq-ok (wrapped "failed to wait for tx: " (wait_for_tx hash (c.get_tx hash))) _ e in
        record {
          hash = hash;
          sent = sent;
          resp = resp;
          confirms =
              wait_for_tx_ok hash (c.get_tx hash) resp
                (wrapped-ok "failed to wait for tx: " _ resp a);
        }

    broadcast-ok :
        (name : String) (msgs : List AccountMsg) (hash : String)
        → broadcast c name msgs ≡ ok hash
        → c.broadcast_tx name msgs ≡ reply hash
    broadcast-ok name msgs hash e =
        received-ok _ hash (wrapped-ok "failed to broadcast tx: " _ hash e)

    -- A settled transaction has a message of which the test holds.
    abbrev pub HasSettled : String → (List AccountMsg → Bool) → Type 0
    HasSettled name test = (msgs : List AccountMsg) × Settled name msgs × (test msgs ≡ true)

    is_output-outputs_to :
        (coins : Coins) (as_ : List String) (outputs : List (String × Coins)) (a : String)
        → outputs_to c coins as_ ≡ ok outputs
        → is_output a outputs ≡ contains_key a as_
    unfolding outputs_to
    is_output-outputs_to coins [] outputs a e =
        subst (λ os. is_output a os ≡ false) (ok-injective e) refl
    is_output-outputs_to coins (x ∷ as_) outputs a e = elim (Bool-cases (c.is_address x)) [
      | inr z ↦ absurd (cc (rw (z, outputs_to) at e))
      | inl z ↦
          let (rest, f, g) = >>=-eq-ok (outputs_to c coins as_) _ (rw (z, outputs_to) at e) in
          subst (λ os. is_output a os ≡ contains_key a (x ∷ as_)) (ok-injective g)
            (ap (λ b. str_eq x a || b) (is_output-outputs_to coins as_ rest a f))
    ]

    pub prime_accounts-ok :
        (name from : String) (as_ : List String) (u : Unit {0}) (a : String)
        → prime_accounts c name from as_ ≡ ok u
        → contains_key a as_ ≡ true
        → HasSettled name (is_paid a)
    unfolding prime_accounts send_coins_multi
    prime_accounts-ok name from as_ u a e h =
        let (coin, _, e1) = >>=-eq-ok (or_panic (S.new_coin "adym" (S.new_int 1))) _ e in
        let coins = S.new_coins (coin ∷ []) in
        let (outputs, f, e2) =
          >>=-eq-ok (outputs_to c coins as_) _ (wrapped-ok "failed to send coins: " _ u e1) in
        let product = S.safe_mul_int coins (S.new_int (length as_)) in
        elim (Bool-cases product.1) [
          | inr z ↦ absurd (cc (rw z at e2))
          | inl z ↦
              let msgs = multi_send from product.0 outputs ∷ [] in
              let (hash, b, e3) = >>=-eq-ok (broadcast c name msgs) _ (rw z at e2) in
              (
                msgs,
                confirmed-Settled name msgs hash u (broadcast-ok name msgs hash b) e3,
                rw (is_paid, is_output-outputs_to coins as_ outputs a f, h) refl,
              )
        ]

    is_granted-grants_to :
        (granter a : String) (as_ : List String)
        → is_granted granter a (grants_to c granter as_) ≡ contains_key a as_
    is_granted-grants_to granter a [] = refl
    is_granted-grants_to granter a (x ∷ as_) =
        ground (arith, is_granted-grants_to granter a as_, eq_refl granter)

    pub add_fee_grant_to_fulfiller-ok :
        (name granter : String) (as_ : List String) (u : Unit {0}) (a : String)
        → add_fee_grant_to_fulfiller c name granter as_ ≡ ok u
        → contains_key a as_ ≡ true
        → HasSettled name (is_granted granter a)
    unfolding add_fee_grant_to_fulfiller
    add_fee_grant_to_fulfiller-ok name granter as_ u a e h =
        let msgs = grants_to c granter as_ in
        let (hash, b, e1) = >>=-eq-ok (broadcast c name msgs) _ e in
        (
          msgs,
          confirmed-Settled name msgs hash u (broadcast-ok name msgs hash b) e1,
          rw (is_granted-grants_to granter a as_) h,
        )

    -- The address was a member of the group, or a settled transaction makes it one.
    abbrev pub IsMember : String → ℕ → String → Type 0
    IsMember name group a =
        ((members : List MemberRequest) × (c.group_members group ≡ reply members)
          × (is_member a members ≡ true))
        ⊎ HasSettled name (is_added group a)

    pub add_fulfillers_to_group-ok :
        (name admin : String) (group : ℕ) (accs : List Account) (u : Unit {0}) (a : String)
        → add_fulfillers_to_group c name admin group accs ≡ ok u
        → has_address a accs ≡ true
        → IsMember name group a
    unfolding add_fulfillers_to_group
    add_fulfillers_to_group-ok name admin group accs u a e h =
        let (members, m, e1) = >>=-eq-ok (received (c.group_members group)) _ e in
        elim (Option-cases (member_updates members accs)) [
          | inl z ↦ inl (members, received-ok _ members m, member_updates-none a members accs z h)
          | inr (updates, z) ↦
              let msgs = update_group_members admin group updates ∷ [] in
              let (hash, b, e2) = >>=-eq-ok (received (c.broadcast_tx name msgs)) _ (rw z at e1) in
              inr (
                msgs,
                confirmed-Settled name msgs hash u (received-ok _ hash b) e2,
                rw (is_added, member_updates_members a members accs updates z, h) (ground arith),
              )
        ]
