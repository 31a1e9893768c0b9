-- ===== src/Reconcile/Subject/Joined.antt =====
-- `matchBySubject` links only free accounts that may be written to active people without a link.
use nuno.Prelude.{
  ℕ, ◌==◌, ◌≡◌, refl, sym, subst, ap, ◌∙◌, inl, inr, true, false, not, ◌||◌, Option, none, some,
  List, [], ◌∷◌, Memᴰ, All, All-append, All-mem, All_of_mem, ℕ_eq, Bool-cases, by_test, is_empty,
  arith,
}
use nuno.Prelude.Int.{ℤ}
use nuno.Prelude.Text.{Text, Text_eq}
use nuno.Prelude.Dict.{
  lookup, write, has, has-none, lookup-write_inv, lookup-write_same, lookup-write_other,
}
use nuno.Core.Model.{User, ExternalAccount, AccountLink, link_matched, writable_external}
use nuno.Reconcile.Link.{ProviderState, adopt}
use nuno.Reconcile.Link.Owners.{IsOwnership, IsOwned, AreKept, IsSameProvider}
use nuno.Reconcile.Subject.{
  Subjects, claim_all, known_user, join_user, join_account, join_each, join_all, match_by_subject,
}
use nuno.Reconcile.Subject.Active.{IsActive, AreActive, claim_all-AreActive, known_user-IsActive}

-- A link of a person that had none leaves the other owners their links.
adopt-IsOwned :
    (users : List User) (now : ℤ) (n : ℕ) (a : ExternalAccount) (s : ProviderState)
    → IsActive users n
    → lookup n s.linked ≡ none
    → Memᴰ a s.accounts
    → writable_external a ≡ true
    → IsOwned users s
    → IsOwned users (adopt now n a.external_id link_matched s)
unfolding adopt
adopt-IsOwned users now n a s (u, m, p) free observed w h =
    let l : AccountLink = record {
      user_id = n;
      provider_id = s.row.id;
      external_id = a.external_id;
      origin = link_matched;
      linked_at = now;
    } in
    let mine : IsOwnership users s.accounts (write n l s.linked) a.external_id n = record {
      link = l;
      linked = lookup-write_same n l s.linked;
      target = refl;
      user = u;
      active = m;
      is_user = p;
      account = a;
      observed = observed;
      is_account = refl;
      is_writable = w;
    } in
    record {
      owned = λ x k e. elim (lookup-write_inv a.external_id x n k s.owner e) [
        | inl (same, person) ↦
            subst (λ y. IsOwnership users s.accounts (write n l s.linked) y k) same
              (subst (IsOwnership users s.accounts (write n l s.linked) a.external_id) person mine)
        | inr (_, old) ↦
            let o = h.owned x k old in
            record {
              link = o.link;
              linked = lookup-write_other n k l s.linked (other k o.link o.linked) ∙ o.linked;
              target = o.target;
              user = o.user;
              active = o.active;
              is_user = o.is_user;
              account = o.account;
              observed = o.observed;
              is_account = o.is_account;
              is_writable = o.is_writable;
            }
      ];
    }
  where
    other : (k : ℕ) (l : AccountLink) → lookup k s.linked ≡ some l → (n == k) ≡ false
    other k l e = elim (Bool-cases (n == k)) [
      | inr no_person ↦ no_person
      | inl same ↦ absurd (cc (free, ap (λ y. lookup y s.linked) ((ℕ_eq.same_iff n k).0 same), e))
    ]

-- A link to an account without an owner leaves the other links their accounts.
adopt-AreKept :
    (now : ℤ) (n : ℕ) (a : ExternalAccount) (s : ProviderState)
    → lookup a.external_id s.owner ≡ none
    → AreKept s
    → AreKept (adopt now n a.external_id link_matched s)
unfolding adopt
adopt-AreKept now n a s free k =
    let P : AccountLink → Type 0 =
      λ l. lookup l.external_id (write a.external_id n s.owner) ≡ some l.user_id in
    All-append P s.new_links _
      (All_of_mem P s.new_links (λ l m.
        let owned =
          All-mem (λ (x : AccountLink). lookup x.external_id s.owner ≡ some x.user_id) s.new_links k
            m in
        lookup-write_other a.external_id l.external_id n s.owner (other l owned) ∙ owned))
      (lookup-write_same a.external_id n s.owner, tt)
  where
    other :
        (l : AccountLink)
        → lookup l.external_id s.owner ≡ some l.user_id
        → (a.external_id == l.external_id) ≡ false
    other l e = elim (Bool-cases (a.external_id == l.external_id)) [
      | inr differ ↦ differ
      | inl same ↦ absurd (
          cc (
            free,
            ap (λ y. lookup y s.owner) ((Text_eq.same_iff a.external_id l.external_id).0 same),
            e,
          ))
    ]

record IsJoined (users : List User) (s t : ProviderState) : Type 0 where
  same : IsSameProvider s t
  owners : IsOwned users t
  kept : AreKept s → AreKept t

here : (s : ProviderState) → IsSameProvider s s
here s = record { slot = refl; row = refl; accounts = refl }

join_user-IsJoined :
    (users : List User) (now : ℤ) (a : ExternalAccount) (o : Option ℕ) (s : ProviderState)
    → ((n : ℕ) → o ≡ some n → IsActive users n)
    → Memᴰ a s.accounts
    → writable_external a ≡ true
    → has a.external_id s.owner ≡ false
    → IsOwned users s
    → IsJoined users s (join_user now a o s)
unfolding join_user adopt
join_user-IsJoined users now a none s f m w u h = record {
  same = here s;
  owners = h;
  kept = λ k. k;
}
join_user-IsJoined users now a (some n) s f m w u h =
    by_test (IsJoined users s) (has n s.linked) _ _
      (λ _. record {
        same = record { slot = refl; row = refl; accounts = refl };
        owners = h;
        kept = λ k. k;
      })
      (λ free. record {
        same = record { slot = refl; row = refl; accounts = refl };
        owners = adopt-IsOwned users now n a s (f n refl) (has-none n s.linked free) m w h;
        kept = adopt-AreKept now n a s (has-none a.external_id s.owner u);
      })

join_account-IsJoined :
    (users : List User) (now : ℤ) (j : Subjects) (a : ExternalAccount) (s : ProviderState)
    → AreActive users j.user_by_subject
    → Memᴰ a s.accounts
    → IsOwned users s
    → IsJoined users s (join_account now j a s)
unfolding join_account
join_account-IsJoined users now j a s k m h =
    let same : IsJoined users s s = record { same = here s; owners = h; kept = λ k. k } in
    by_test (IsJoined users s) (not (writable_external a) || is_empty a.subject) _ _ (λ _. same)
      (λ w.
        by_test (IsJoined users s) (has a.external_id s.owner) _ _ (λ _. same)
          (λ u.
            join_user-IsJoined users now a (known_user j a.subject) s
              (λ n e. known_user-IsActive users j a.subject n k e) m (ground (arith, w)) u h))

join_each-IsJoined :
    (users : List User) (now : ℤ) (j : Subjects) (l : List ExternalAccount) (s : ProviderState)
    → AreActive users j.user_by_subject
    → All (λ a. Memᴰ a s.accounts) l
    → IsOwned users s
    → IsJoined users s (join_each now j l s)
unfolding join_each
join_each-IsJoined users now j [] s k m h = record { same = here s; owners = h; kept = λ q. q }
join_each-IsJoined users now j (a ∷ l) s k (m, ms) h =
    let one = join_account-IsJoined users now j a s k m h in
    let rest =
      join_each-IsJoined users now j l (join_account now j a s) k
        (subst (λ b. All (λ x. Memᴰ x b) l) (sym one.same.accounts) ms) one.owners in
    record {
      same = record {
        slot = rest.same.slot ∙ one.same.slot;
        row = rest.same.row ∙ one.same.row;
        accounts = rest.same.accounts ∙ one.same.accounts;
      };
      owners = rest.owners;
      kept = λ q. rest.kept (one.kept q);
    }

-- The owners and the new links of a state, and what is said of its provider.
abbrev pub IsKept : List User → (ProviderState → Type 0) → ProviderState → Type 0
IsKept users Q s = IsOwned users s × AreKept s × Q s

module _ (users : List User) (now : ℤ) (Q : ProviderState → Type 0)
    (move : (s t : ProviderState) → IsSameProvider s t → Q s → Q t) where
  join_all-IsKept :
      (j : Subjects) (states : List ProviderState)
      → AreActive users j.user_by_subject
      → All (IsKept users Q) states
      → All (IsKept users Q) (join_all now j states)
  unfolding join_all
  join_all-IsKept j [] k h = tt
  join_all-IsKept j (s ∷ rest) k ((h, n, q), hs) =
      let joined =
        join_each-IsJoined users now j s.accounts s k
          (All_of_mem (λ a. Memᴰ a s.accounts) s.accounts (λ x m. m)) h in
      (
        (joined.owners, joined.kept n, move s (join_each now j s.accounts s) joined.same q),
        join_all-IsKept j rest k hs,
      )

  IsOwned-states :
      (states : List ProviderState) → All (IsKept users Q) states → All (IsOwned users) states
  IsOwned-states [] h = tt
  IsOwned-states (s ∷ rest) (h, hs) = (h.0, IsOwned-states rest hs)

  -- In whatever order the owners are visited, the join by subject keeps the owners of every
  -- provider those of active people whose one link there leads to an observed account that may be
  -- written, and gives no account of a new link to another person.
  pub match_by_subject-IsKept :
      (order : List Text → List Text) (states : List ProviderState)
      → All (IsKept users Q) states
      → All (IsKept users Q) (match_by_subject now order states)
  unfolding match_by_subject
  match_by_subject-IsKept order states h =
      join_all-IsKept (claim_all order states (record { user_by_subject = []; conflicting = [] }))
        states
        (claim_all-AreActive users order states (record { user_by_subject = []; conflicting = [] })
          (IsOwned-states states h) (record { active = λ x n e. absurd (unfold lookup in cc e) }))
        h
