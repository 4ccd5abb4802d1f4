-- ===== src/Tracker/Selection/Found.antt =====
-- How the search for an LP ends, and what it reserves.
use mathlib.Core.Option.{some-injective}
use eibc_client.Base.{
  ◌≡◌, ◌≢◌, refl, none, sym, subst, ap, ◌∙◌, ◌⊎◌, Bool, true, false, List, [], ◌∷◌, some, String,
  str_eq, if◌then◌else◌, ok, >>=-eq-ok, ok-injective, All, arith, Bool-cases, Option-cases, inl,
  inr, eq_iff, is_empty,
}
use eibc_client.Base.Map.{Map, lookup, adjust}
use eibc_client.Lp.{Lp, reserve_funds}
use eibc_client.Sdk.{Sdk}
use eibc_client.Sdk.Laws.{DecLaws}
use eibc_client.Tracker.Selection.Choice.{
  IsShuffle, Accepts, admits_iff, select_best_lp_All, select_best_lp_best,
}
use eibc_client.Tracker.Selection.{
  admits, filter_lps, better, select_best_lp, find_lp_for_order, criteria, current_lp, keep_lp,
  assign_lp, find_address,
}
use eibc_client.Types.{DemandOrder}

module _ ⦃S : Sdk⦄ where
  -- The LP is one of the map's.
  abbrev pub Occurs : Lp → Map Lp → Type 0
  Occurs l [] = ⊥
  Occurs l ((k, x) ∷ m) = (x ≡ l) ⊎ Occurs l m

  filter_lps_inv :
      (o : DemandOrder) (k : String) (l : Lp) (m : Map Lp) (ls : List Lp)
      → filter_lps o ((k, l) ∷ m) ≡ ok ls
      → (b : Bool) × (ls' : List Lp) × (admits o l ≡ ok b)
        × (filter_lps o m ≡ ok ls')
        × (ls ≡ (if b then l ∷ ls' else ls'))
  unfolding filter_lps
  filter_lps_inv o k l m ls e =
      let (b, a, f) = >>=-eq-ok (admits o l) _ e in
      let (ls', c, g) = >>=-eq-ok (filter_lps o m) _ f in (b, ls', a, c, sym (ok-injective g))

  module _ (P : Lp → Type 0) (l : Lp) (ls : List Lp) where
    All-if : (b : Bool) → (b ≡ true → P l) → All P ls → All P (if b then l ∷ ls else ls)
    All-if true p h = (p refl, h)
    All-if false p h = h

    All-if_rest : (b : Bool) → All P (if b then l ∷ ls else ls) → All P ls
    All-if_rest true h = h.1
    All-if_rest false h = h

    All-if_first : (b : Bool) → b ≡ true → All P (if b then l ∷ ls else ls) → P l
    All-if_first true e h = h.0
    All-if_first false e h = absurd (cc)

  pub filter_lps_ok :
      (o : DemandOrder) (m : Map Lp) (ls : List Lp)
      → filter_lps o m ≡ ok ls
      → All (λ l. admits o l ≡ ok true) ls
  unfolding filter_lps
  filter_lps_ok o [] ls e = subst (All (λ l. admits o l ≡ ok true)) (ok-injective e) tt
  filter_lps_ok o ((k, l) ∷ m) ls e =
      let (b, ls', a, c, g) = filter_lps_inv o k l m ls e in
      rw g (All-if (λ l. admits o l ≡ ok true) l ls' b (λ t. rw (← t) a) (filter_lps_ok o m ls' c))

  find_address_ok :
      (P : Lp → Type 0) (a : String) (ls : List Lp) (l : Lp)
      → All P ls
      → find_address a ls ≡ some l
      → P l × (l.address ≡ a)
  unfolding find_address
  find_address_ok P a [] l h e = absurd (cc)
  find_address_ok P a (x ∷ ls) l h e = elim (Bool-cases (str_eq x.address a)) [
    | inl t ↦
        let same = some-injective x l (rw t at e) in
        (subst P same h.0, rw (← same) ((eq_iff x.address a).0 t))
    | inr f ↦ find_address_ok P a ls l h.1 (rw f at e)
  ]

  -- The order goes to an LP of the map that accepts it, none that accepts it is better, and the LP
  -- reserves the price.
  pub record Assigned (o o' : DemandOrder) (m m' : Map Lp) : Type 0 where
    pub lp : Lp
    pub occurs : Occurs lp m
    pub accepts : Accepts o lp
    pub best :
        (k : String) (x : Lp) → lookup k m ≡ some x → Accepts o x → better o.rollapp_id x lp ≡ false
    pub order : o' ≡ record o {
      lp_address = lp.address;
      settlement_validated = (criteria o.rollapp_id lp).settlement_validated;
      operator_fee_part = (criteria o.rollapp_id lp).operator_fee_share;
    }
    pub reserves : m' ≡ adjust lp.address (reserve_funds o.price) m

  -- No LP that the order has still accepts it: it has none, or none of the map with that address does.
  abbrev pub HasNoLp : DemandOrder → Map Lp → Type 0
  HasNoLp o m =
      (o.lp_address ≡ "")
      ⊎ ((k : String) (x : Lp) → lookup k m ≡ some x → Accepts o x → x.address ≢ o.lp_address)

  -- How a search for an LP ends well.
  pub data Found (o o' : DemandOrder) (m m' : Map Lp) : Type 0 where
    -- the LP of the order is kept: only whether it wants settlement validation is read again, and
    -- nothing is reserved
    kept :
        (l : Lp)
        → o.lp_address ≢ ""
        → Occurs l m
        → Accepts o l
        → l.address ≡ o.lp_address
        → o' ≡ record o { settlement_validated = (criteria o.rollapp_id l).settlement_validated }
        → m' ≡ m
        → Found o o' m m'
    assigned : HasNoLp o m → Assigned o o' m m' → Found o o' m m'

  -- An order without an LP is assigned one.
  pub Found-Assigned :
      (o o' : DemandOrder) (m m' : Map Lp)
      → o.lp_address ≡ ""
      → Found o o' m m'
      → Assigned o o' m m'
  Found-Assigned o o' m m' e (kept l has _ _ _ _ _) = absurd (has e)
  Found-Assigned o o' m m' e (assigned _ a) = a

  find_address-none :
      (a : String) (ls : List Lp) → find_address a ls ≡ none → All (λ l. l.address ≢ a) ls
  unfolding find_address
  find_address-none a [] e = tt
  find_address-none a (l ∷ ls) e = elim (Bool-cases (str_eq l.address a)) [
    | inl t ↦ absurd (cc (rw t at e))
    | inr t ↦ (
      (λ same. absurd (cc (rw ((eq_iff l.address a).1 same) at t))),
      find_address-none a ls (rw t at e),
    )
  ]

  All-Occurs_later :
      (k : String) (x : Lp) (m : Map Lp) (ls : List Lp)
      → All (λ l. Occurs l m) ls
      → All (λ l. Occurs l ((k, x) ∷ m)) ls
  All-Occurs_later k x m [] h = tt
  All-Occurs_later k x m (l ∷ ls) h = (inr h.0, All-Occurs_later k x m ls h.1)

  pub filter_lps-Occurs :
      (o : DemandOrder) (m : Map Lp) (ls : List Lp)
      → filter_lps o m ≡ ok ls
      → All (λ l. Occurs l m) ls
  unfolding filter_lps
  filter_lps-Occurs o [] ls e = subst (All (λ l. Occurs l [])) (ok-injective e) tt
  filter_lps-Occurs o ((k, l) ∷ m) ls e =
      let (b, ls', a, c, g) = filter_lps_inv o k l m ls e in
      rw g (
        All-if (λ x. Occurs x ((k, l) ∷ m)) l ls' b (λ _. inl refl)
          (All-Occurs_later k l m ls' (filter_lps-Occurs o m ls' c)))

  filter_lps_complete :
      (P : Lp → Type 0) (o : DemandOrder) (m : Map Lp) (ls : List Lp)
      → filter_lps o m ≡ ok ls
      → All P ls
      → (k : String) (x : Lp) → lookup k m ≡ some x
      → admits o x ≡ ok true
      → P x
  unfolding filter_lps
  filter_lps_complete P o [] ls e h k x at_k ac = absurd (cc)
  filter_lps_complete P o ((j, l) ∷ m) ls e h k x at_k ac =
      let (b, ls', a, c, g) = filter_lps_inv o j l m ls e in
      let h' = subst (All P) g h in
      elim (Bool-cases (str_eq j k)) [
        | inl t ↦
            let same = some-injective l x (rw t at at_k) in
            subst P same
              (All-if_first P l ls' b (ok-injective (sym a ∙ ap (admits o) same ∙ ac)) h')
        | inr t ↦ filter_lps_complete P o m ls' c (All-if_rest P l ls' b h') k x (rw t at at_k) ac
      ]

  module _ (shuffle : List Lp → List Lp) (mixes : IsShuffle shuffle) (L : DecLaws)
      (o o' : DemandOrder) (m m' : Map Lp) (ls : List Lp) (f : filter_lps o m ≡ ok ls) where
    Found-kept :
        (l : Lp)
        → current_lp o ls ≡ some l
        → ◌≡◌ {A = DemandOrder × Map Lp} (keep_lp o l, m) (o', m')
        → Found o o' m m'
    unfolding current_lp keep_lp
    Found-kept l c e = elim (Bool-cases (str_eq o.lp_address "")) [
      | inl t ↦ absurd (ground arith)
      | inr t ↦
          let at_address = rw (t, current_lp) at c in
          let (a, here) =
            find_address_ok (λ l. admits o l ≡ ok true) o.lp_address ls l (filter_lps_ok o m ls f)
              at_address in
          let (there, _) =
            find_address_ok (λ l. Occurs l m) o.lp_address ls l (filter_lps-Occurs o m ls f)
              at_address in
          kept l (λ z. absurd (cc (rw ((eq_iff o.lp_address "").1 z) at t))) there
            ((admits_iff o l).0 a) here (ap (λ p. p.0) (sym e)) (ap (λ p. p.1) (sym e))
    ]

    current_lp-none : current_lp o ls ≡ none → HasNoLp o m
    unfolding current_lp
    current_lp-none c = elim (Bool-cases (str_eq o.lp_address "")) [
      | inl t ↦ inl ((eq_iff o.lp_address "").0 t)
      | inr t ↦ inr (λ k x at_k ac.
          filter_lps_complete (λ x. x.address ≢ o.lp_address) o m ls f
            (find_address-none o.lp_address ls (rw (t, current_lp) at c)) k x at_k
            ((admits_iff o x).1 ac))
    ]

    Found-assigned :
        (l : Lp)
        → current_lp o ls ≡ none
        → select_best_lp o.rollapp_id (shuffle ls) ≡ some l
        → ◌≡◌ {A = DemandOrder × Map Lp}
            (assign_lp o l, adjust l.address (reserve_funds o.price) m)
            (o', m')
        → Found o o' m m'
    unfolding assign_lp
    Found-assigned l n c e = assigned (current_lp-none n) (record {
      lp = l;
      occurs = chosen (λ x. Occurs x m) (filter_lps-Occurs o m ls f);
      accepts = (admits_iff o l).0 (chosen (λ x. admits o x ≡ ok true) (filter_lps_ok o m ls f));
      best = λ k x at_k ac.
          filter_lps_complete (λ x. better o.rollapp_id x l ≡ false) o m ls f
            (mixes.back _ ls ((select_best_lp_best L o.rollapp_id (shuffle ls)).1 l c)) k x at_k
            ((admits_iff o x).1 ac);
      order = ap (λ p. p.0) (sym e);
      reserves = ap (λ p. p.1) (sym e);
    })
      where
        chosen : (P : Lp → Type 0) → All P ls → P l
        chosen P h = select_best_lp_All P o.rollapp_id (shuffle ls) l (mixes.into P ls h) c

  -- A search that ends well keeps the LP of the order and reserves nothing, and then that LP is in the
  -- map and accepts the order; or the order has no LP, or none with its address still accepts it,
  -- and then it goes to an LP of the map that is best of all those that accept it, which reserves
  -- the price.
  pub find_lp_for_order-Found :
      (shuffle : List Lp → List Lp)
      → IsShuffle shuffle
      → DecLaws
      → (o o' : DemandOrder) (m m' : Map Lp) → find_lp_for_order shuffle o m ≡ ok (o', m')
      → Found o o' m m'
  unfolding find_lp_for_order
  find_lp_for_order-Found shuffle mixes L o o' m m' e =
      let (ls, f, g) = >>=-eq-ok (filter_lps o m) _ e in
      elim (Bool-cases (is_empty ls)) [
        | inl t ↦ absurd (ground arith)
        | inr t ↦ elim (Option-cases (current_lp o ls)) [
          | inr (l, c) ↦ Found-kept shuffle mixes L o o' m m' ls f l c (ok-injective (ground arith))
          | inl c ↦ elim (Option-cases (select_best_lp o.rollapp_id (shuffle ls))) [
            | inl d ↦ absurd (ground arith)
            | inr (l, d) ↦
                Found-assigned shuffle mixes L o o' m m' ls f l c d (ok-injective (ground arith))
          ]
        ]
      ]
