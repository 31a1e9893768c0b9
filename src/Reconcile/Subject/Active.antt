-- ===== src/Reconcile/Subject/Active.antt =====
-- Every subject that `matchBySubject` of internal/reconcile/link.go knows is that of an active person.
use nuno.Prelude.{
  ℕ, ◌==◌, ◌≡◌, refl, subst, inl, inr, not, Option, none, some, List, [], ◌∷◌, Memᴰ, All, ℕ_eq,
  Bool-cases, by_test, is_empty, contains, arith,
}
use nuno.Prelude.Text.{Text, Text_eq}
use nuno.Prelude.Dict.{Dict, lookup, write, keys, lookup-write_inv}
use nuno.Core.Model.{User}
use nuno.Reconcile.Link.{ProviderState}
use nuno.Reconcile.Link.Owners.{IsOwned}
use nuno.Reconcile.Subject.{
  Subjects, subject_of, claim_subject, claim, claim_each, claim_all, known_user,
}

abbrev pub IsActive : List User → ℕ → Type 0
IsActive users n = (u : User) × Memᴰ u users × (u.id ≡ n)

-- Each subject is that of an active person.
pub record AreActive (users : List User) (m : Dict Text ℕ) : Type 0 where
  pub active : (subject : Text) (n : ℕ) → lookup subject m ≡ some n → IsActive users n

write-AreActive :
    (users : List User) (subject : Text) (n : ℕ) (m : Dict Text ℕ)
    → IsActive users n
    → AreActive users m
    → AreActive users (write subject n m)
write-AreActive users subject n m a h = record {
  active = λ x k e. elim (lookup-write_inv subject x n k m e) [
    | inl (_, same) ↦ subst (IsActive users) same a
    | inr (_, old) ↦ h.active x k old
  ];
}

claim_subject-AreActive :
    (users : List User) (subject : Text) (n : ℕ) (o : Option ℕ) (j : Subjects)
    → IsActive users n
    → AreActive users j.user_by_subject
    → AreActive users (claim_subject subject n o j).user_by_subject
unfolding claim_subject
claim_subject-AreActive users subject n none j a h =
    write-AreActive users subject n j.user_by_subject a h
claim_subject-AreActive users subject n (some k) j a h =
    by_test (λ (r : Subjects). AreActive users r.user_by_subject) (not (k == n)) _ _ (λ _. h)
      (λ _. write-AreActive users subject n j.user_by_subject a h)

claim-AreActive :
    (users : List User) (s : ProviderState) (x : Text) (o : Option ℕ) (j : Subjects)
    → lookup x s.owner ≡ o
    → IsOwned users s
    → AreActive users j.user_by_subject
    → AreActive users (claim s x o j).user_by_subject
unfolding claim
claim-AreActive users s x none j e o h = h
claim-AreActive users s x (some n) j e o h =
    let subject = subject_of (lookup x s.by_id) in
    let p = o.owned x n e in
    by_test (λ (r : Subjects). AreActive users r.user_by_subject) (is_empty subject) _ _ (λ _. h)
      (λ _.
        claim_subject-AreActive users subject n (lookup subject j.user_by_subject) j
          (p.user, p.active, p.is_user) h)

claim_each-AreActive :
    (users : List User) (s : ProviderState) (order : List Text) (j : Subjects)
    → IsOwned users s
    → AreActive users j.user_by_subject
    → AreActive users (claim_each s order j).user_by_subject
unfolding claim_each
claim_each-AreActive users s [] j o h = h
claim_each-AreActive users s (x ∷ rest) j o h =
    claim_each-AreActive users s rest (claim s x (lookup x s.owner) j) o
      (claim-AreActive users s x (lookup x s.owner) j refl o h)

pub claim_all-AreActive :
    (users : List User) (order : List Text → List Text) (states : List ProviderState) (j : Subjects)
    → All (IsOwned users) states
    → AreActive users j.user_by_subject
    → AreActive users (claim_all order states j).user_by_subject
unfolding claim_all
claim_all-AreActive users order [] j o h = h
claim_all-AreActive users order (s ∷ rest) j (o, os) h =
    claim_all-AreActive users order rest (claim_each s (order (keys s.owner)) j) os
      (claim_each-AreActive users s (order (keys s.owner)) j o h)

pub known_user-IsActive :
    (users : List User) (j : Subjects) (subject : Text) (n : ℕ)
    → AreActive users j.user_by_subject
    → known_user j subject ≡ some n
    → IsActive users n
unfolding known_user
known_user-IsActive users j subject n h e = elim (Bool-cases (contains subject j.conflicting)) [
  | inl y ↦ absurd (ground (arith, e, y))
  | inr z ↦ h.active subject n (ground (arith, e, z))
]
