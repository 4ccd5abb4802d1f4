-- ===== src/Tracker/Grants/Reload.antt =====
-- Which LPs a reload of the grants drops.
use eibc_client.Base.{
  ◌≡◌, ◌≢◌, refl, ◌∙◌, ap, true, false, ◌⊎◌, inl, inr, List, [], ◌∷◌, none, some, String, str_eq,
  eq_iff, eq_refl, if◌then◌else◌, arith, Bool-cases, Option-cases, contains_key,
}
use eibc_client.Base.Map.{Map, lookup, erase, lookup-erase}
use eibc_client.Lp.{Lp}
use eibc_client.Sdk.{Sdk}
use eibc_client.Tracker.Grants.{
  Grant, is_revoked, delete_all, to_delete, drop_revoked, has_no_value,
}

module _ ⦃S : Sdk⦄ where
  -- Every LP stands under its own address.
  abbrev pub IsKeyed : Map Lp → Type 0
  IsKeyed [] = Unit {0}
  IsKeyed ((k, l) ∷ m) = (l.address ≡ k) × IsKeyed m

  lookup-delete_all :
      (k : String) (keys : List String) (m : Map Lp)
      → lookup k (delete_all keys m) ≡ (if contains_key k keys then none else lookup k m)
  unfolding delete_all
  lookup-delete_all k [] m = refl
  lookup-delete_all k (a ∷ keys) m =
      ground (arith, lookup-delete_all k keys (erase a m), lookup-erase a k m)

  kept-to_delete :
      (k : String) (gs : List Grant) (m : Map Lp)
      → is_revoked k gs ≡ false
      → contains_key k (to_delete gs m) ≡ false
  unfolding to_delete
  kept-to_delete k gs [] h = refl
  kept-to_delete k gs ((j, x) ∷ m) h = elim (Bool-cases (str_eq x.address k)) [
    | inl t ↦ rw ((eq_iff x.address k).0 t, h) (kept-to_delete k gs m h)
    | inr t ↦ ground (arith, kept-to_delete k gs m h)
  ]

  contains_key-to_delete :
      (k : String) (gs : List Grant) (m : Map Lp) (l : Lp)
      → IsKeyed m
      → lookup k m ≡ some l
      → contains_key k (to_delete gs m) ≡ is_revoked k gs
  unfolding to_delete
  contains_key-to_delete k gs [] l h e = absurd (cc)
  contains_key-to_delete k gs ((j, x) ∷ m) l h e = elim (Bool-cases (str_eq j k)) [
    | inl t ↦ rw (h.0 ∙ (eq_iff j k).0 t) (ground (arith, eq_refl k, kept-to_delete k gs m))
    | inr t ↦ ground (arith, contains_key-to_delete k gs m l h.1 (rw t at e), h.0)
  ]

  -- The first grant that an address has made gives an authorization with a value.
  pub HasGrant : String → List Grant → Type 0
  HasGrant k [] = ⊥
  HasGrant k (g ∷ gs) =
      ((g.granter ≡ k) × (value : String) × (g.authorization ≡ some (some value)))
      ⊎ ((g.granter ≢ k) × HasGrant k gs)

  has_no_value_or :
      (g : Grant)
      → (has_no_value g ≡ true) ⊎ ((value : String) × (g.authorization ≡ some (some value)))
  has_no_value_or g = elim (Option-cases g.authorization) [
    | inl e ↦ inl (rw e refl)
    | inr (v, e) ↦ elim (Option-cases v) [
      | inl e' ↦ inl (rw (e, e') refl)
      | inr (value, e') ↦ inr (value, e ∙ ap some e')
    ]
  ]

  HasGrant-is_revoked : (k : String) (gs : List Grant) → HasGrant k gs → is_revoked k gs ≡ false
  unfolding is_revoked HasGrant
  HasGrant-is_revoked k [] h = absurd h
  HasGrant-is_revoked k (g ∷ gs) (inl (a, value, e)) = rw ((eq_iff g.granter k).1 a, e) refl
  HasGrant-is_revoked k (g ∷ gs) (inr (n, h)) = elim (Bool-cases (str_eq g.granter k)) [
    | inl z ↦ absurd (n ((eq_iff g.granter k).0 z))
    | inr z ↦ rw z (HasGrant-is_revoked k gs h)
  ]

  is_revoked-false : (k : String) (gs : List Grant) → is_revoked k gs ≡ false → HasGrant k gs
  unfolding is_revoked HasGrant
  is_revoked-false k [] e = absurd (cc)
  is_revoked-false k (g ∷ gs) e = elim (Bool-cases (str_eq g.granter k)) [
    | inr z ↦
        inr (
          (λ a. absurd (cc (rw ((eq_iff g.granter k).1 a) at z))),
          is_revoked-false k gs (rw z at e),
        )
    | inl z ↦ elim (has_no_value_or g) [
      | inl v ↦ absurd (cc (rw (z, v) at e))
      | inr (value, v) ↦ inl ((eq_iff g.granter k).0 z, value, v)
    ]
  ]

  -- With every LP under its own address, a reload begins by dropping LPs: an LP stays as it is if
  -- the first grant of its address has an authorization with a value, and otherwise it is gone.
  pub lookup-drop_revoked :
      (k : String) (gs : List Grant) (m : Map Lp) (l : Lp)
      → IsKeyed m
      → lookup k m ≡ some l
      → (HasGrant k gs → lookup k (drop_revoked gs m) ≡ some l)
        × ((¬ HasGrant k gs) → lookup k (drop_revoked gs m) ≡ none)
  unfolding drop_revoked
  lookup-drop_revoked k gs m l h e =
      let gone = contains_key-to_delete k gs m l h e in
      let there = lookup-delete_all k (to_delete gs m) m in
      (
        λ x. ground (arith, there, gone, HasGrant-is_revoked k gs x),
        λ n. elim (Bool-cases (is_revoked k gs)) [
          | inl z ↦ ground (arith, there, gone, z)
          | inr z ↦ absurd (n (is_revoked-false k gs z))
        ],
      )
