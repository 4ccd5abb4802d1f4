-- ===== src/Tracker/Grants/Books.antt =====
-- A reload of the grants keeps the books of the LPs solvent.
use eibc_client.Base.{
  ◌≡◌, refl, subst, Bool, false, ◌||◌, inl, inr, List, [], ◌∷◌, Option, none, some, String, str_eq,
  arith, Bool-cases, Option-cases, is_empty,
}
use eibc_client.Base.Map.{Map, erase}
use eibc_client.Lp.{Lp, RollappCriteria}
use eibc_client.Sdk.{Sdk, Coins}
use eibc_client.Sdk.Laws.{CoinLaws}
use eibc_client.Tracker.State.{OrderTracker}
use eibc_client.Tracker.Selection.Solvency.{AreSolvent, insert-AreSolvent, erase-AreSolvent}
use eibc_client.Tracker.Grants.{
  Grant, GrantedCriteria, delete_all, to_delete, drop_revoked, read_rollapps, Loaded, loaded,
  failed, fresh_lp, store_lp, load_decoded, load_grant, load_grants, load_lps,
}

module _ ⦃S : Sdk⦄ (L : CoinLaws) (unmarshal : Option String → Option (List GrantedCriteria))
    (get_balances : String → Option Coins) (rollapps_hash : Map RollappCriteria → String) where
  abbrev LeavesSolvent : Loaded unmarshal get_balances rollapps_hash → Type 0
  LeavesSolvent (loaded m _) = AreSolvent L m
  LeavesSolvent (failed _) = Unit {0}

  store_lp-AreSolvent :
      (t : OrderTracker) (granter : String) (gs : List GrantedCriteria) (balance : Coins)
      (rollapps : Map RollappCriteria) (m : Map Lp) (updated : Bool)
      → AreSolvent L m
      → LeavesSolvent
          (store_lp unmarshal get_balances rollapps_hash t granter gs balance rollapps m updated)
  unfolding store_lp
  store_lp-AreSolvent t granter gs balance rollapps m updated h =
      elim (Bool-cases (is_empty rollapps)) [
        | inl e ↦ rw e h
        | inr e ↦ rw e (
            insert-AreSolvent L granter
              (fresh_lp unmarshal get_balances rollapps_hash granter rollapps balance) m h refl
              (record { covered = λ d. omega (arith, L.amount_of-nil d) }))
      ]

  load_decoded-AreSolvent :
      (t : OrderTracker) (granter : String) (gs : List GrantedCriteria) (m : Map Lp)
      (updated : Bool)
      → AreSolvent L m
      → LeavesSolvent (load_decoded unmarshal get_balances rollapps_hash t granter gs m updated)
  unfolding load_decoded
  load_decoded-AreSolvent t granter gs m updated h = elim (Option-cases (get_balances granter)) [
    | inl e ↦ rw (e, LeavesSolvent) tt
    | inr (b, e) ↦
        rw (e, LeavesSolvent)
          (store_lp-AreSolvent t granter gs b (read_rollapps t gs []) m updated h)
  ]

  load_value-AreSolvent :
      (t : OrderTracker) (g : Grant) (value : Option (Option String)) (m : Map Lp) (updated : Bool)
      → g.authorization ≡ value
      → AreSolvent L m
      → LeavesSolvent (load_grant unmarshal get_balances rollapps_hash t g m updated)
  unfolding load_grant
  load_value-AreSolvent t g none m updated e h = rw e h
  load_value-AreSolvent t g (some v) m updated e h =
      rw e (elim (Bool-cases (str_eq g.granter "" || str_eq g.grantee "")) [
        | inl x ↦ rw x h
        | inr x ↦ elim (Option-cases (unmarshal v)) [
          | inl u ↦ rw (x, u) tt
          | inr (gs, u) ↦ rw (x, u) (load_decoded-AreSolvent t g.granter gs m updated h)
        ]
      ])

  load_grants-AreSolvent :
      (t : OrderTracker) (gs : List Grant) (m : Map Lp) (updated : Bool)
      → AreSolvent L m
      → AreSolvent L (load_grants unmarshal get_balances rollapps_hash t gs m updated).0
  unfolding load_grants
  load_grants-AreSolvent t [] m updated h = h
  load_grants-AreSolvent t (g ∷ gs) m updated h =
      go (load_grant unmarshal get_balances rollapps_hash t g m updated) refl
        (load_value-AreSolvent t g g.authorization m updated refl h)
        (λ m' updated' k. load_grants-AreSolvent t gs m' updated' k)
    where
      go :
          (r : Loaded unmarshal get_balances rollapps_hash)
          → load_grant unmarshal get_balances rollapps_hash t g m updated ≡ r
          → LeavesSolvent (load_grant unmarshal get_balances rollapps_hash t g m updated)
          → ((m' : Map Lp) (updated' : Bool)
              → AreSolvent L m'
              → AreSolvent L (load_grants unmarshal get_balances rollapps_hash t gs m' updated').0)
          → AreSolvent L (load_grants unmarshal get_balances rollapps_hash t (g ∷ gs) m updated).0
      go (loaded m' updated') e k rest =
          rw (e, AreSolvent) (rest m' updated' (subst LeavesSolvent e k))
      go (failed _) e k rest = rw (e, AreSolvent) h

  delete_all-AreSolvent :
      (keys : List String) (m : Map Lp) → AreSolvent L m → AreSolvent L (delete_all keys m)
  unfolding delete_all
  delete_all-AreSolvent [] m h = h
  delete_all-AreSolvent (k ∷ keys) m h =
      delete_all-AreSolvent keys (erase k m) (erase-AreSolvent L k m h)

  -- A reload keeps the books solvent, whether it ends or fails half-way.
  pub load_lps-AreSolvent :
      (gs : Option (List Grant)) (t : OrderTracker)
      → AreSolvent L t.lps
      → AreSolvent L (load_lps unmarshal get_balances rollapps_hash gs t).0.lps
  unfolding load_lps
  load_lps-AreSolvent none t h = h
  load_lps-AreSolvent (some gs) t h =
      load_grants-AreSolvent t gs (drop_revoked gs t.lps) false
        (delete_all-AreSolvent (to_delete gs t.lps) t.lps h)
