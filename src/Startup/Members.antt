-- ===== src/Startup/Members.antt =====
-- Who is a member of the operator's group after an update.
use mathlib.Core.Option.{some-injective}
use eibc_client.Base.{
  ◌≡◌, refl, Bool, true, false, ◌||◌, List, [], ◌∷◌, ◌++◌, some, String, str_eq, arith, is_empty,
  eq_refl, eq_iff, not, ◌&&◌, sym, Bool-cases, inl, inr, none, List-cases,
}
use eibc_client.Startup.{MemberRequest, is_member, members_to_add, member_updates}
use eibc_client.Types.{Account}

is_member-append :
    (a : String) (ms ns : List MemberRequest)
    → is_member a (ms ++ ns) ≡ (is_member a ms || is_member a ns)
is_member-append a [] ns = refl
is_member-append a (m ∷ ms) ns = ground (arith, is_member-append a ms ns)

-- whether an account has the address
abbrev pub has_address : String → List Account → Bool
has_address a [] = false
has_address a (x ∷ xs) = str_eq x.address a || has_address a xs

is_member-members_to_add :
    (a : String) (members : List MemberRequest) (accounts : List Account)
    → is_member a (members_to_add members accounts)
      ≡ (has_address a accounts && not (is_member a members))
unfolding members_to_add
is_member-members_to_add a members [] = refl
is_member-members_to_add a members (x ∷ xs) = elim (Bool-cases (str_eq x.address a)) [
  | inl e ↦
      ground (arith, is_member-members_to_add a members xs, (eq_iff x.address a).0 e, eq_refl a)
  | inr e ↦ ground (arith, is_member-members_to_add a members xs)
]

-- After an update the group has as members exactly those that it had and the accounts of the
-- fulfillers.
pub member_updates_members :
    (a : String) (members : List MemberRequest) (accounts : List Account)
    (updates : List MemberRequest)
    → member_updates members accounts ≡ some updates
    → is_member a updates ≡ (is_member a members || has_address a accounts)
unfolding member_updates
member_updates_members a members accounts updates e =
    elim (Bool-cases (is_empty (members_to_add members accounts))) [
      | inl z ↦ absurd (cc (rw (z, member_updates) at e))
      | inr z ↦
          let same : members ++ members_to_add members accounts ≡ updates =
            some-injective _ _ (rw (z, member_updates) at e) in
          rw
            (
              sym same,
              is_member-append a members (members_to_add members accounts),
              is_member-members_to_add a members accounts,
            )
            (absorb (is_member a members) (has_address a accounts))
    ]
  where
    absorb : (x y : Bool) → (x || y && not x) ≡ (x || y)
    absorb true y = refl
    absorb false y = ground arith

-- Where there is no update, the accounts of the fulfillers are all members.
pub member_updates-none :
    (a : String) (members : List MemberRequest) (accounts : List Account)
    → member_updates members accounts ≡ none
    → has_address a accounts ≡ true
    → is_member a members ≡ true
unfolding member_updates
member_updates-none a members accounts e h =
    elim (Bool-cases (is_empty (members_to_add members accounts))) [
      | inr z ↦ absurd (cc (rw (z, member_updates) at e))
      | inl z ↦ elim (List-cases (members_to_add members accounts)) [
        | inr (x, rest, c) ↦ absurd (cc (rw c at z))
        | inl c ↦ let same = rw c at (is_member-members_to_add a members accounts) in ground arith
      ]
    ]
