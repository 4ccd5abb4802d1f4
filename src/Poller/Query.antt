-- ===== src/Poller/Query.antt =====
-- Which orders of the hub are listed.
use eibc_client.Base.{
  ℕ, ◌≡◌, ◌⊎◌, ◌≤◌, ◌<◌, ◌^◌, ◌↔◌, refl, sym, subst, Bool, true, false, ◌&&◌, List, [], ◌∷◌, Option,
  none, some, String, ok, panic, if◌then◌else◌, Bool-cases, inl, inr, ok-injective, arith, str_eq,
  eq_iff, ◌>>=◌, >>=-eq-ok, or_panic, head?, get_elem?, length, All, ltb,
}
use eibc_client.Base.Int.{pos}
use eibc_client.Base.Text.{format_ℕ, parse_int, parse_int-format_ℕ}
use eibc_client.Poller.{
  pending, Order, Hub, HubOrder, PacketType, split_key, parse_proof_height, or_zero, is_final,
  is_open, has_fee, to_order, select_orders, get_rollapp_demand_orders_from_rpc,
  get_claimable_rollapp_demand_orders_from_rpc,
}
use eibc_client.Sdk.{Sdk}

-- The proof height of a key is read, if need be as 0, unless the key has fewer than three parts.
pub parse_proof_height_panics :
    (big_endian : List ℕ → Option ℕ) (key : List ℕ)
    → (parse_proof_height big_endian key ≡ panic) ↔ (length (split_key [] key) < 3)
unfolding parse_proof_height
parse_proof_height_panics big_endian key =
    (λ e. third (split_key [] key) e, λ h. few (split_key [] key) h)
  where
    third :
        (parts : List (List ℕ))
        → (or_panic (get_elem? parts 2) >>= (λ part. ok (or_zero (big_endian part)))) ≡ panic
        → length parts < 3
    third [] e = omega arith
    third (a ∷ []) e = omega arith
    third (a ∷ b ∷ []) e = omega arith
    third (a ∷ b ∷ c ∷ parts) e = absurd (cc)

    few :
        (parts : List (List ℕ))
        → length parts < 3
        → (or_panic (get_elem? parts 2) >>= (λ part. ok (or_zero (big_endian part)))) ≡ panic
    few [] h = refl
    few (a ∷ []) h = refl
    few (a ∷ b ∷ []) h = refl
    few (a ∷ b ∷ c ∷ parts) h = absurd (omega arith)

module _ ⦃S : Sdk⦄ where
  abbrev pub In : HubOrder → List HubOrder → Type 0
  In o [] = ⊥
  In o (x ∷ xs) = (o ≡ x) ⊎ In o xs

  select_orders_All :
      (P : Order → Type 0) (big_endian : List ℕ → Option ℕ) (wanted : HubOrder → Bool)
      (passes : ℕ → Bool) (listed : HubOrder → List ℕ) (os : List HubOrder) (xs : List Order)
      → ((o : HubOrder) (x : Order) (h : ℕ)
          → In o os
          → wanted o ≡ true
          → parse_proof_height big_endian o.tracking_packet_key ≡ ok h
          → passes h ≡ false
          → to_order (listed o) h o ≡ ok x
          → P x)
      → select_orders big_endian wanted passes listed os ≡ ok xs
      → All P xs
  unfolding select_orders
  select_orders_All P be w f l [] xs each e = subst (All P) (ok-injective e) tt
  select_orders_All P be w f l (o ∷ os) xs each e = elim (Bool-cases (w o)) [
    | inr n ↦
        select_orders_All P be w f l os xs (λ q x h i. each q x h (inr i))
          (rw (n, select_orders) at e)
    | inl y ↦
        let (h, a, e1) =
          >>=-eq-ok (parse_proof_height be o.tracking_packet_key) _ (rw (y, select_orders) at e) in
        elim (Bool-cases (f h)) [
          | inl s ↦ select_orders_All P be w f l os xs (λ q x k i. each q x k (inr i)) (rw s at e1)
          | inr s ↦
              let (x, b, e2) = >>=-eq-ok (to_order (l o) h o) _ (rw s at e1) in
              let (rest, c, e3) = >>=-eq-ok (select_orders be w f l os) _ e2 in
              subst (All P) (ok-injective e3) (
                each o x h (inl refl) y a s b,
                select_orders_All P be w f l os rest (λ q z k i. each q z k (inr i)) c,
              )
        ]
  ]

  -- What the texts of a listed order say.
  to_order-ok :
      (key : List ℕ) (h : ℕ) (o : HubOrder) (x : Order)
      → to_order key h o ≡ ok x
      → (x.eibc_order_id ≡ o.id)
        × (x.proof_height ≡ format_ℕ h)
        × (x.block_height ≡ "0")
        × (x.tracking_packet_key ≡ key)
  unfolding to_order
  to_order-ok key h o x e =
      let (p, a, e1) = >>=-eq-ok (or_panic (head? o.price)) _ e in
      let (f, b, e2) = >>=-eq-ok (or_panic (head? o.fee)) _ e1 in
      subst
        (λ y.
          (y.eibc_order_id ≡ o.id)
          × (y.proof_height ≡ format_ℕ h)
          × (y.block_height ≡ "0")
          × (y.tracking_packet_key ≡ key))
        (ok-injective e2) (refl, refl, refl, refl)

  -- An order that is there to be fulfilled: the hub lists it, nobody has fulfilled it, it has a fee,
  -- and its block is not final; its height is read back from its text, if it is below 2 ^ 63.
  pub record IsPending (hub : Hub) (rollapp : String) (os : List HubOrder) (x : Order)
      : Type 0 where
    pub source : HubOrder
    pub on_hub : In source os
    pub same_id : x.eibc_order_id ≡ source.id
    pub free : source.fulfiller_address ≡ ""
    pub pays : has_fee source ≡ true
    pub height : ℕ
    pub of_key : parse_proof_height hub.big_endian source.tracking_packet_key ≡ ok height
    pub texts : to_order [] height source ≡ ok x
    pub not_final : is_final (or_zero (hub.latest_height rollapp)) height ≡ false
    pub read_back :
        parse_int x.proof_height ≡ (if ltb height (2 ^ 63) then some (pos height) else none)

  -- Every order that is listed to be fulfilled comes from an order of the hub that nobody has
  -- fulfilled, that has a fee, and whose block is not final, or whose height is read as 0; the
  -- text of the height is read back as that height if it is below 2 ^ 63, and is refused from
  -- there on.
  pub get_rollapp_demand_orders_from_rpc-All :
      (hub : Hub) (rollapp : String) (kind : PacketType) (os : List HubOrder) (xs : List Order)
      → hub.demand_orders_by_status (record {
        status = pending;
        kind = kind;
        rollapp_id = rollapp;
        fulfilled = false;
        limit = 100000;
      })
        ≡ some os
      → get_rollapp_demand_orders_from_rpc hub rollapp kind ≡ ok xs
      → All (IsPending hub rollapp os) xs
  unfolding get_rollapp_demand_orders_from_rpc
  get_rollapp_demand_orders_from_rpc-All hub rollapp kind os xs answer e =
      select_orders_All (IsPending hub rollapp os) hub.big_endian
        (λ o. str_eq o.fulfiller_address "" && has_fee o)
        (is_final (or_zero (hub.latest_height rollapp))) (λ _. []) os xs
        (λ o x h i w a s b.
          let (same, text, _, _) = to_order-ok [] h o x b in
          record {
            source = o;
            on_hub = i;
            same_id = same;
            free = (eq_iff o.fulfiller_address "").0 (ground arith);
            pays = ground arith;
            height = h;
            of_key = a;
            texts = b;
            not_final = s;
            read_back = rw text (parse_int-format_ℕ h);
          })
        (rw (answer, get_rollapp_demand_orders_from_rpc) at e)

  -- An order of which the operator may claim the payment: it fulfilled it, and its block is final.
  pub record IsClaimable (hub : Hub) (rollapp operator : String) (os : List HubOrder) (x : Order)
      : Type 0 where
    pub source : HubOrder
    pub on_hub : In source os
    pub same_id : x.eibc_order_id ≡ source.id
    pub same_key : x.tracking_packet_key ≡ source.tracking_packet_key
    pub own : source.fulfiller_address ≡ operator
    pub height : ℕ
    pub of_key : parse_proof_height hub.big_endian source.tracking_packet_key ≡ ok height
    pub texts : to_order source.tracking_packet_key height source ≡ ok x
    pub final : height ≤ or_zero (hub.latest_height rollapp)

  -- Every order that is listed to be claimed comes from an order of the hub that the operator has
  -- fulfilled and whose block is final, or whose height is read as 0, and keeps its tracking key.
  pub get_claimable_rollapp_demand_orders_from_rpc-All :
      (hub : Hub) (rollapp operator : String) (kind : PacketType) (os : List HubOrder)
      (xs : List Order)
      → hub.demand_orders_by_status (record {
        status = pending;
        kind = kind;
        rollapp_id = rollapp;
        fulfilled = true;
        limit = 10;
      })
        ≡ some os
      → get_claimable_rollapp_demand_orders_from_rpc hub operator rollapp kind ≡ ok xs
      → All (IsClaimable hub rollapp operator os) xs
  unfolding get_claimable_rollapp_demand_orders_from_rpc
  get_claimable_rollapp_demand_orders_from_rpc-All hub rollapp operator kind os xs answer e =
      select_orders_All (IsClaimable hub rollapp operator os) hub.big_endian
        (λ o. str_eq operator o.fulfiller_address && has_fee o)
        (is_open (or_zero (hub.latest_height rollapp))) (λ o. o.tracking_packet_key) os xs
        (λ o x h i w a s b.
          let (same, text, _, key) = to_order-ok o.tracking_packet_key h o x b in
          record {
            source = o;
            on_hub = i;
            same_id = same;
            same_key = key;
            own = sym ((eq_iff operator o.fulfiller_address).0 (ground arith));
            height = h;
            of_key = a;
            texts = b;
            final = ground arith;
          })
        (rw (answer, get_claimable_rollapp_demand_orders_from_rpc) at e)
