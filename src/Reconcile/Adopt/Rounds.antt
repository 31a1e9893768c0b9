-- ===== src/Reconcile/Adopt/Rounds.antt =====
-- What the loop of `Adopt` leaves for the links that it has passed.
use nuno.Prelude.{
  ℕ, ◌==◌, ◌≡◌, refl, sym, subst, ap, ◌∙◌, ◌⊎◌, inl, inr, true, not, Option, none, some, List, [],
  ◌∷◌, Result, ok, err, Memᴰ, All-mem, ℕ_eq, Bool-cases, Option-cases, Result-cases, by_test,
  if◌then◌else◌,
}
use nuno.Prelude.Text.{Text, Text_eq}
use nuno.Prelude.Dict.{Dict, lookup, write, index_by, lookup-index_by, lookup-write}
use nuno.Core.Quota.{Quota, is_known}
use nuno.Core.Model.{User, ExternalAccount, AccountLink}
use nuno.Store.Links.{same_person}
use nuno.Store.Links.Keys.{HasKeys, AreApart, same_person_sym}
use nuno.Store.Accounts.{list_external_accounts}
use nuno.Store.Policy.{PolicyDb, PolicyError, override_adopted, set_provider_override, user_policy}
use nuno.Store.Policy.Overrides.{
  user_policy-set_provider_override, user_policy_other-set_provider_override,
}
use nuno.Store.Db.{Db}
use nuno.Reconcile.Instance.{Instance, by_provider}
use nuno.Reconcile.Planning.{PlanFilter, admits, is_active, users_by_id}
use nuno.Reconcile.Adopt.{
  Adoption, find_account, adopted_into, adopt_account, adopt_user, adopt_link, and_then, adopt_each,
}

pub lookup-accounts :
    (x : Text) (l : List ExternalAccount) (m : Dict Text ExternalAccount)
    → lookup x (index_by (λ (a : ExternalAccount). a.external_id) l m)
      ≡ find_account x l (lookup x m)
unfolding index_by find_account
lookup-accounts x [] m = refl
lookup-accounts x (a ∷ l) m =
    lookup-accounts x l (write a.external_id a m)
    ∙ ap (find_account x l) (lookup-write a.external_id x a m)

and_then-ok :
    (r : Adoption × Result PolicyError (Unit {0}))
    (rest : Adoption → Adoption × Result PolicyError (Unit {0}))
    → (and_then r rest).1 ≡ ok tt
    → (r.1 ≡ ok tt) × (and_then r rest ≡ rest r.0)
unfolding and_then
and_then-ok (s, ok u) rest h = (refl, refl)
and_then-ok (s, err e) rest h = absurd (cc h)

pub HasKeys-single :
    (links : List AccountLink) (a b : AccountLink)
    → HasKeys links
    → Memᴰ a links
    → Memᴰ b links
    → same_person a b ≡ true
    → a ≡ b
HasKeys-single [] a b k m n same = elim m [ ]
HasKeys-single (x ∷ l) a b (apart, k) (Memᴰ.head e) (Memᴰ.head f) same = e ∙ sym f
HasKeys-single (x ∷ l) a b (apart, k) (Memᴰ.head e) (Memᴰ.tail n) same =
    let differ = (All-mem (AreApart x) l apart n).0 in
    absurd (cc (subst (λ c. same_person c b ≡ true) e same, differ))
HasKeys-single (x ∷ l) a b (apart, k) (Memᴰ.tail m) (Memᴰ.head f) same =
    let differ = (All-mem (AreApart x) l apart m).0 in
    absurd (cc (subst (λ c. same_person a c ≡ true) f same, same_person_sym x a, differ))
HasKeys-single (x ∷ l) a b (apart, k) (Memᴰ.tail m) (Memᴰ.tail n) same =
    HasKeys-single l a b k m n same

module _ {W : Type 0} (db : Db) (instances : List (Instance W)) (filter : PlanFilter) where
  -- What the loop reads of a link whose account it adopts.
  pub record IsAdopted (link : AccountLink) (a : ExternalAccount) : Type 0 where
    pub instance : Instance W
    pub known : lookup link.provider_id (by_provider instances) ≡ some instance
    pub user : User
    pub found : lookup link.user_id (users_by_id db) ≡ some user
    pub active : is_active user.status ≡ true
    pub admitted : admits filter user.uid instance.row.name ≡ true
    pub observed :
        find_account link.external_id (list_external_accounts link.provider_id db.accounts) none
        ≡ some a
    pub reported : is_known a.quota ≡ true

  pub user_id : (id : ℕ) (user : User) → lookup id (users_by_id db) ≡ some user → user.id ≡ id
  unfolding lookup
  user_id id user h = elim (lookup-index_by (λ (u : User). u.id) _ [] id user h) [
    | inl bad ↦ absurd (cc bad)
    | inr (_, e) ↦ e
  ]

  -- The override of the pair of a link.
  abbrev pub held : AccountLink → PolicyDb → Option Quota
  held link policies =
      lookup link.provider_id (user_policy link.user_id policies).provider_overrides

  abbrev pub Holds : PolicyDb → AccountLink → Type 0
  Holds policies link = (a : ExternalAccount) → IsAdopted link a → held link policies ≡ some a.quota

  -- A round stores one override of the pair of its link, or leaves the policy as it was.
  abbrev Stores : AccountLink → PolicyDb → PolicyDb → Type 0
  Stores link before after =
      (before ≡ after)
      ⊎ ((q : Quota) × (set_provider_override link.user_id link.provider_id q override_adopted
              before
            ≡ ok after))

  adopted_into-Stores :
      (link : AccountLink) (q : Quota) (s : Adoption)
      → Stores link s.policies
          (adopted_into s (
            set_provider_override link.user_id link.provider_id q override_adopted
              s.policies)).0.policies
  unfolding adopted_into
  adopted_into-Stores link q s =
      elim (Result-cases
        (set_provider_override link.user_id link.provider_id q override_adopted s.policies)) [
          | inl (stored, e) ↦ rw (e, adopted_into) (inr (q, e))
          | inr (why, e) ↦ rw (e, adopted_into) (inl refl)
        ]

  adopt_link-Stores :
      (link : AccountLink) (s : Adoption)
      → Stores link s.policies (adopt_link db instances filter link s).0.policies
  unfolding adopt_link adopt_user adopt_account
  adopt_link-Stores link s = elim (Option-cases (lookup link.provider_id (by_provider instances))) [
    | inl n ↦ rw (n, adopt_user) (inl refl)
    | inr (i, known) ↦ elim (Option-cases (lookup link.user_id (users_by_id db))) [
      | inl n ↦ rw (known, n, adopt_user) (inl refl)
      | inr (user, found) ↦
          rw (known, found, adopt_user)
            (by_test P (not (is_active user.status)) _ _ (λ _. inl refl)
              (λ _.
                by_test P (not (admits filter user.uid i.row.name)) _ _ (λ _. inl refl)
                  (λ _.
                    elim (Option-cases (
                      find_account link.external_id
                        (list_external_accounts link.provider_id db.accounts) none)) [
                          | inl n ↦ rw (n, adopt_account) (inl refl)
                          | inr (a, at) ↦
                              rw (at, adopt_account, user_id link.user_id user found)
                                (by_test P (not (is_known a.quota)) _ _ (λ _. inl refl)
                                  (λ _. adopted_into-Stores link a.quota s))
                        ])))
    ]
  ]
    where
      P : Adoption × Result PolicyError (Unit {0}) → Type 0
      P r = Stores link s.policies r.0.policies

  adopt_link-IsAdopted :
      (link : AccountLink) (s : Adoption) (a : ExternalAccount)
      → IsAdopted link a
      → adopt_link db instances filter link s
        ≡ adopted_into s (
            set_provider_override link.user_id link.provider_id a.quota override_adopted s.policies)
  unfolding adopt_link adopt_user adopt_account
  adopt_link-IsAdopted link s a p =
      rw
        (
          p.known,
          p.found,
          p.active,
          p.admitted,
          p.observed,
          p.reported,
          user_id link.user_id p.user p.found,
        )
        refl

  adopt_link-Holds :
      (link : AccountLink) (s : Adoption)
      → (adopt_link db instances filter link s).1 ≡ ok tt
      → Holds (adopt_link db instances filter link s).0.policies link
  unfolding adopted_into
  adopt_link-Holds link s h a p =
      let round = adopt_link-IsAdopted link s a p in
      elim (Result-cases
        (set_provider_override link.user_id link.provider_id a.quota override_adopted s.policies)) [
          | inr (why, e) ↦
              let refused : err why ≡ ok tt =
                ap (λ r. (adopted_into s r).1) (sym e) ∙ (ap (λ r. r.1) (sym round) ∙ h) in
              absurd (cc refused)
          | inl (stored, e) ↦
              let after : stored ≡ (adopt_link db instances filter link s).0.policies =
                ap (λ r. (adopted_into s r).0.policies) (sym e)
                ∙ ap (λ r. r.0.policies) (sym round) in
              let (_, _, read) =
                user_policy-set_provider_override link.user_id link.provider_id link.provider_id
                  a.quota override_adopted s.policies stored e in
              let own : (link.provider_id == link.provider_id) ≡ true =
                (ℕ_eq.same_iff link.provider_id link.provider_id).1 refl in
              subst (λ t. held link t ≡ some a.quota) after
                (read ∙ ap (λ b. if b then some a.quota else held link s.policies) own)
        ]

  -- No two links are of one person on one provider.
  abbrev pub AreSingle : List AccountLink → Type 0
  AreSingle links =
      (a b : AccountLink) → Memᴰ a links → Memᴰ b links → same_person a b ≡ true → a ≡ b

  Holds-kept :
      (links : List AccountLink) (link old : AccountLink) (s : Adoption)
      → AreSingle links
      → Memᴰ link links
      → Memᴰ old links
      → (adopt_link db instances filter link s).1 ≡ ok tt
      → Holds s.policies old
      → Holds (adopt_link db instances filter link s).0.policies old
  unfolding same_person
  Holds-kept links link old s single m n h k = elim (Bool-cases (same_person link old)) [
    | inl same ↦
        subst (Holds (adopt_link db instances filter link s).0.policies) (single link old m n same)
          (adopt_link-Holds link s h)
    | inr apart ↦ λ a p. elim (adopt_link-Stores link s) [
      | inl same ↦ subst (λ t. held old t ≡ some a.quota) same (k a p)
      | inr (q, e) ↦
          user_policy_other-set_provider_override link.user_id link.provider_id q override_adopted
            s.policies _ old.user_id old.provider_id e apart
          ∙ k a p
    ]
  ]

  pub adopt_each-Holds :
      (links done l : List AccountLink) (s : Adoption)
      → AreSingle links
      → ((x : AccountLink) → Memᴰ x l → Memᴰ x links)
      → ((x : AccountLink) → Memᴰ x done → Memᴰ x links)
      → ((x : AccountLink) → Memᴰ x done → Holds s.policies x)
      → (adopt_each db instances filter l s).1 ≡ ok tt
      → (x : AccountLink) → Memᴰ x done ⊎ Memᴰ x l
      → Holds (adopt_each db instances filter l s).0.policies x
  unfolding adopt_each
  adopt_each-Holds links done [] s single f g k h x (inl m) = k x m
  adopt_each-Holds links done [] s single f g k h x (inr m) = elim m [ ]
  adopt_each-Holds links done (link ∷ l) s single f g k h x m =
      let rest = adopt_each db instances filter l in
      let (good, next) = and_then-ok (adopt_link db instances filter link s) rest h in
      let kept =
        adopt_each-Holds links (link ∷ done) l (adopt_link db instances filter link s).0 single
          (λ y n. f y (Memᴰ.tail n))
          (λ y n. elim n [ Memᴰ.head e ↦ f y (Memᴰ.head e) | Memᴰ.tail j ↦ g y j ])
          (λ y n. elim n [
            | Memᴰ.head e ↦
                subst (Holds (adopt_link db instances filter link s).0.policies) (sym e)
                  (adopt_link-Holds link s good)
            | Memᴰ.tail j ↦
                Holds-kept links link y s single (f link (Memᴰ.head refl)) (g y j) good (k y j)
          ])
          (ap (λ r. r.1) (sym next) ∙ h) in
      subst (λ (r : Adoption × Result PolicyError (Unit {0})). Holds r.0.policies x) (sym next)
        (kept x (elim m [
          | inl n ↦ inl (Memᴰ.tail n)
          | inr n ↦ elim n [ Memᴰ.head e ↦ inl (Memᴰ.head e) | Memᴰ.tail j ↦ inr j ]
        ]))
