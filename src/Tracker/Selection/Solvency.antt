-- ===== src/Tracker/Selection/Solvency.antt =====
-- No LP promises more than it has: the books of the LPs stay solvent.

use mathlib.Core.Option.{some-injective}
use eibc_client.Base.{
  ◌+◌, ◌<◌, ◌≡◌, ◌≢◌, refl, sym, subst, ap, ◌∙◌, Bool, true, List, [], ◌∷◌, none, some, String,
  str_eq, if◌then◌else◌, ok, panic, arith, Bool-cases, Result-cases, inl, inr, eq_iff, eq_refl,
}
use eibc_client.Base.Map.{
  Map, lookup, adjust, insert, erase, lookup-adjust, lookup-insert, lookup-erase,
}
use eibc_client.Lp.{Lp, has_balance, reserve_funds, release_funds, debit_reserved_funds}
use eibc_client.Lp.Funds.{
  IsSolvent, has_balance_answers, has_balance_iff, reserve_funds-IsSolvent, release_funds-IsSolvent,
  debit_reserved_funds-IsSolvent, reserved, held,
}
use eibc_client.Sdk.{Sdk}
use eibc_client.Sdk.Laws.{CoinLaws, DecLaws}
use eibc_client.Tracker.Selection.{admits, filter_lps, find_lp_for_order, release_all, debit_all}
use eibc_client.Tracker.Selection.Choice.{IsShuffle, Accepts}
use eibc_client.Tracker.Selection.Found.{Found, Occurs, kept, assigned, find_lp_for_order-Found}
use eibc_client.Types.{DemandOrder}

module _ ⦃S : Sdk⦄ (L : CoinLaws) where
  -- Every LP stands under its own address, once, and is solvent.
  abbrev pub AreSolvent : Map Lp → Type 0
  AreSolvent [] = Unit {0}
  AreSolvent ((k, l) ∷ m) = (l.address ≡ k) × (lookup k m ≡ none) × IsSolvent L l × AreSolvent m

  lookup-AreSolvent :
      (k : String) (m : Map Lp) (l : Lp)
      → AreSolvent m
      → lookup k m ≡ some l
      → (l.address ≡ k) × IsSolvent L l
  lookup-AreSolvent k [] l h e = absurd (cc)
  lookup-AreSolvent k ((j, x) ∷ m) l h e = elim (Bool-cases (str_eq j k)) [
    | inl t ↦ (
      rw (← some-injective x l (rw t at e)) (h.0 ∙ (eq_iff j k).0 t),
      subst (IsSolvent L) (some-injective x l (rw t at e)) h.2,
    )
    | inr t ↦ lookup-AreSolvent k m l h.3 (rw t at e)
  ]

  lookup-Occurs : (m : Map Lp) (l : Lp) → AreSolvent m → Occurs l m → lookup l.address m ≡ some l
  lookup-Occurs [] l h c = absurd c
  lookup-Occurs ((j, x) ∷ m) l h (inl e) = rw (← e) (ground (arith, eq_refl j, h.0))
  lookup-Occurs ((j, x) ∷ m) l h (inr c) = elim (Bool-cases (str_eq j l.address)) [
    | inl t ↦
        absurd
          (ground (arith, ap (λ k. lookup k m) ((eq_iff j l.address).0 t), lookup-Occurs m l h.3 c))
    | inr t ↦ rw t (lookup-Occurs m l h.3 c)
  ]

  adjust-AreSolvent :
      (k : String) (f : Lp → Lp) (m : Map Lp)
      → AreSolvent m
      → ((l : Lp) → (f l).address ≡ l.address)
      → ((l : Lp) → lookup k m ≡ some l → IsSolvent L l → IsSolvent L (f l))
      → AreSolvent (adjust k f m)
  adjust-AreSolvent k f [] h same keep = tt
  adjust-AreSolvent k f ((j, x) ∷ m) h same keep = elim (Bool-cases (str_eq j k)) [
    | inl t ↦ rw t (same x ∙ h.0, h.1, keep x (ground arith) h.2, h.3)
    | inr t ↦ rw t (
      h.0,
      ground (arith, lookup-adjust k j f m),
      h.2,
      adjust-AreSolvent k f m h.3 same (λ l e v. keep l (ground arith) v),
    )
  ]

  pub erase-AreSolvent : (k : String) (m : Map Lp) → AreSolvent m → AreSolvent (erase k m)
  erase-AreSolvent k [] h = tt
  erase-AreSolvent k ((j, x) ∷ m) h = elim (Bool-cases (str_eq j k)) [
    | inl t ↦ rw t (erase-AreSolvent k m h.3)
    | inr t ↦ rw t (h.0, ground (arith, lookup-erase k j m), h.2, erase-AreSolvent k m h.3)
  ]

  pub insert-AreSolvent :
      (k : String) (l : Lp) (m : Map Lp)
      → AreSolvent m
      → l.address ≡ k
      → IsSolvent L l
      → AreSolvent (insert k l m)
  insert-AreSolvent k l [] h a v = (a, refl, v, tt)
  insert-AreSolvent k l ((j, x) ∷ m) h a v = elim (Bool-cases (str_eq j k)) [
    | inl t ↦ rw t (a, rw (← (eq_iff j k).0 t) h.1, v, h.3)
    | inr t ↦ rw t (
      h.0,
      ground (arith, lookup-insert k j l m, eq_iff j k, eq_iff k j),
      h.2,
      insert-AreSolvent k l m h.3 a v,
    )
  ]

  -- Releasing and debiting keep the books solvent, whatever the orders.
  pub release_all-AreSolvent :
      (os : List DemandOrder) (m : Map Lp) → AreSolvent m → AreSolvent (release_all os m)
  unfolding release_all release_funds
  release_all-AreSolvent [] m h = h
  release_all-AreSolvent (o ∷ os) m h = release_all-AreSolvent os _ (
      adjust-AreSolvent o.lp_address (release_funds o.price) m h (λ l. refl)
        (λ l _. release_funds-IsSolvent L o.price l))

  pub debit_all-AreSolvent :
      (os : List DemandOrder) (m : Map Lp) → AreSolvent m → AreSolvent (debit_all os m)
  unfolding debit_all debit_reserved_funds
  debit_all-AreSolvent [] m h = h
  debit_all-AreSolvent (o ∷ os) m h = debit_all-AreSolvent os _ (
      adjust-AreSolvent o.lp_address (debit_reserved_funds o.price) m h (λ l. refl)
        (λ l _. debit_reserved_funds-IsSolvent L o.price l))

  admits_answers : (o : DemandOrder) (l : Lp) → IsSolvent L l → (b : Bool) × (admits o l ≡ ok b)
  unfolding admits
  admits_answers o l v = elim (Result-cases (admits o l)) [
    | inl r ↦ r
    | inr (inl (m, e)) ↦ absurd (ground (arith, has_balance_answers L o.price l v))
    | inr (inr e) ↦ absurd (ground (arith, has_balance_answers L o.price l v))
  ]

  filter_lps_answers :
      (o : DemandOrder) (m : Map Lp) → AreSolvent m → (ls : List Lp) × (filter_lps o m ≡ ok ls)
  unfolding filter_lps
  filter_lps_answers o [] h = ([], refl)
  filter_lps_answers o ((k, l) ∷ m) h =
      let (b, a) = admits_answers o l h.2 in
      let (ls, f) = filter_lps_answers o m h.3 in ((if b then l ∷ ls else ls), rw (a, f))

  Found-AreSolvent :
      (o o' : DemandOrder) (m m' : Map Lp) → AreSolvent m → Found o o' m m' → AreSolvent m'
  unfolding reserve_funds
  Found-AreSolvent o o' m m' h (kept l _ _ ac at_o eo em) = rw em h
  Found-AreSolvent o o' m m' h (assigned _ a) = rw a.reserves (
      adjust-AreSolvent a.lp.address (reserve_funds o.price) m h (λ x. refl)
        (λ x e v.
          let same = some-injective a.lp x (sym (lookup-Occurs m a.lp h a.occurs) ∙ e) in
          reserve_funds-IsSolvent L o.price x v
            (subst (λ y. has_balance o.price y ≡ ok true) same a.accepts.for_balance)))

  -- With solvent books the search for an LP never panics, and leaves the books solvent: what an LP
  -- has reserved for all its orders never exceeds its balance in any denomination.
  pub find_lp_for_order-AreSolvent :
      (shuffle : List Lp → List Lp)
      → IsShuffle shuffle
      → DecLaws
      → (o : DemandOrder) (m : Map Lp) → AreSolvent m
      → (find_lp_for_order shuffle o m ≢ panic)
        × ((o' : DemandOrder) (m' : Map Lp)
            → find_lp_for_order shuffle o m ≡ ok (o', m')
            → AreSolvent m')
  unfolding find_lp_for_order
  find_lp_for_order-AreSolvent shuffle mixes D o m h = (
    λ e. let (ls, f) = filter_lps_answers o m h in ground arith,
    λ o' m' e. Found-AreSolvent o o' m m' h (find_lp_for_order-Found shuffle mixes D o o' m m' e),
  )

  -- An LP whose balance covers an order once but not twice, beside what is reserved for others,
  -- accepts it, and after it has reserved the price it does not accept the same order any more:
  -- the check counts the order's own reservation against it.
  pub admits_again :
      (o : DemandOrder) (l : Lp) (d : String)
      → IsSolvent L l
      → Accepts o l
      → held L l d < reserved L l d + L.amount_of o.price d + L.amount_of o.price d
      → ¬ Accepts o (reserve_funds o.price l)
  unfolding reserve_funds
  admits_again o l d v ac tight again = omega (
    arith,
    (has_balance_iff L o.price (record l { reserved_funds = S.coins_add l.reserved_funds o.price })
          (reserve_funds-IsSolvent L o.price l v ac.for_balance)).0
        again.for_balance d,
    L.amount_of-add l.reserved_funds o.price d,
  )
