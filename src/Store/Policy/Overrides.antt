-- ===== src/Store/Policy/Overrides.antt =====
-- What `UserPolicy` reads after `SetProviderOverride`.
use nuno.Prelude.{
  ℕ, ◌==◌, ◌≡◌, refl, sym, subst, ap, ◌∙◌, inl, inr, Bool, true, false, ◌&&◌, ◌||◌, some, List, [],
  ◌∷◌, ◌++◌, ok, Result-cases, Bool-cases, by_test, ℕ_eq, if◌then◌else◌, arith,
}
use nuno.Prelude.Dict.{Dict, lookup, write, lookup-write}
use nuno.Prelude.Table.{exists_row, update_where}
use nuno.Core.Quota.{Quota, valid, is_known}
use nuno.Store.Policy.{
  OverrideOrigin, OverrideRow, PolicyDb, of_pair, put_override, override_refused,
  set_provider_override, overrides_of, user_policy,
}

-- Two maps that agree but at a key that is to be overridden, and there too unless it was.
record Agree (hit : Bool) (p : ℕ) (q : Quota) (m n : Dict ℕ Quota) : Type 0 where
  agree : (w : ℕ) → lookup w m ≡ (if hit && p == w then some q else lookup w n)

Agree-write :
    (hit : Bool) (p : ℕ) (q : Quota) (m n : Dict ℕ Quota) (k : ℕ) (v : Quota)
    → (k == p) ≡ false
    → Agree hit p q m n
    → Agree hit p q (write k v m) (write k v n)
Agree-write hit p q m n k v other h = record {
  agree = λ w. ground (
    arith,
    lookup-write k w v m,
    lookup-write k w v n,
    h.agree w,
    ℕ_eq.same_iff k w,
    ℕ_eq.same_iff p w,
    ℕ_eq.same_iff k p,
    other,
  );
}

Agree-hit :
    (hit : Bool) (p : ℕ) (q v : Quota) (m n : Dict ℕ Quota)
    → Agree hit p q m n
    → Agree true p q (write p q m) (write p v n)
Agree-hit hit p q v m n h = record {
  agree =
      λ w. ground (arith, lookup-write p w q m, lookup-write p w v n, h.agree w, ℕ_eq.same_iff p w);
}

Agree-as :
    (hit b : Bool) {p : ℕ} {q : Quota} {m n : Dict ℕ Quota}
    → hit ≡ b
    → Agree hit p q m n
    → Agree b p q m n
Agree-as hit b {p} {q} {m} {n} e h = subst (λ c. Agree c p q m n) e h

abbrev filed : ℕ → OverrideRow → Dict ℕ Quota → Dict ℕ Quota
filed u row m = if row.user_id == u then write row.provider_id row.quota m else m

Agree-filed :
    (u p : ℕ) (row x : OverrideRow) (hit : Bool) (m n : Dict ℕ Quota)
    → row.user_id ≡ u
    → row.provider_id ≡ p
    → Agree hit p row.quota m n
    → Agree
        (hit || of_pair u p x)
        p
        row.quota
        (filed u (if of_pair u p x then row else x) m)
        (filed u x n)
unfolding of_pair
Agree-filed u p row x hit m n e f h =
    let own : (row.user_id == u) ≡ true = (ℕ_eq.same_iff row.user_id u).1 e in
    elim (Bool-cases (x.user_id == u)) [
      | inr other ↦ rw (other, other) (Agree-as hit (hit || false) (ground arith) h)
      | inl mine ↦ elim (Bool-cases (x.provider_id == p)) [
        | inl same ↦
            let at : x.provider_id ≡ p = (ℕ_eq.same_iff x.provider_id p).0 same in
            rw (mine, same, own, f, at)
              (Agree-as true (hit || true) (ground arith) (Agree-hit hit p row.quota x.quota m n h))
        | inr other ↦
            rw (mine, other, mine)
              (Agree-as hit (hit || false) (ground arith)
                (Agree-write hit p row.quota m n x.provider_id x.quota other h))
      ]
    ]

overrides_of-update :
    (u p : ℕ) (row : OverrideRow) (rows : List OverrideRow) (hit : Bool) (m n : Dict ℕ Quota)
    → row.user_id ≡ u
    → row.provider_id ≡ p
    → Agree hit p row.quota m n
    → Agree
        (hit || exists_row (of_pair u p) rows)
        p
        row.quota
        (overrides_of u (update_where (of_pair u p) (λ _. row) rows) m)
        (overrides_of u rows n)
unfolding overrides_of exists_row update_where
overrides_of-update u p row [] hit m n e f h = Agree-as hit (hit || false) (ground arith) h
overrides_of-update u p row (x ∷ rows) hit m n e f h =
    Agree-as ((hit || of_pair u p x) || exists_row (of_pair u p) rows)
      (hit || (of_pair u p x || exists_row (of_pair u p) rows)) (ground arith)
      (overrides_of-update u p row rows (hit || of_pair u p x) _ _ e f
        (Agree-filed u p row x hit m n e f h))

overrides_of-append :
    (u : ℕ) (row : OverrideRow) (rows : List OverrideRow) (m : Dict ℕ Quota)
    → overrides_of u (rows ++ (row ∷ [])) m ≡ filed u row (overrides_of u rows m)
unfolding overrides_of
overrides_of-append u row [] m = refl
overrides_of-append u row (x ∷ rows) m = overrides_of-append u row rows (filed u x m)

overrides_of-put :
    (row : OverrideRow) (rows : List OverrideRow) (w : ℕ)
    → lookup w (overrides_of row.user_id (put_override row rows) []) ≡ (
        if row.provider_id == w
        then some row.quota
        else lookup w (overrides_of row.user_id rows []))
unfolding put_override
overrides_of-put row rows w =
    elim (Bool-cases (exists_row (of_pair row.user_id row.provider_id) rows)) [
      | inl there ↦
          let start : Agree false row.provider_id row.quota [] [] = record { agree = λ v. refl } in
          let after =
            overrides_of-update row.user_id row.provider_id row rows false [] [] refl refl start in
          rw (there) (ground (arith, there, after.agree w))
      | inr absent ↦
          let own : (row.user_id == row.user_id) ≡ true =
            (ℕ_eq.same_iff row.user_id row.user_id).1 refl in
          rw (absent, overrides_of-append, own)
            (lookup-write row.provider_id w row.quota (overrides_of row.user_id rows []))
    ]

accepted :
    (u p : ℕ) (quota : Quota) (origin : OverrideOrigin) (db stored : PolicyDb)
    → set_provider_override u p quota origin db ≡ ok stored
    → (valid quota ≡ ok tt)
      × (is_known quota ≡ true)
      × (put_override
            (record { user_id = u; provider_id = p; quota = quota; origin = origin })
            db.overrides
          ≡ stored.overrides)
unfolding set_provider_override override_refused
accepted u p quota origin db stored h = elim (Result-cases (valid quota)) [
  | inr (why, bad) ↦ absurd (ground (arith, h, bad))
  | inl (done, good) ↦ elim (Bool-cases (is_known quota)) [
    | inr bad ↦ absurd (ground (arith, h, good, bad))
    | inl known ↦ (good, known, ground (arith, h, good, known))
  ]
]

-- After `SetProviderOverride`, `UserPolicy` reads that quota at that provider, and what it read
-- before at every other one; the quota is valid and known.
pub user_policy-set_provider_override :
    (u p w : ℕ) (quota : Quota) (origin : OverrideOrigin) (db stored : PolicyDb)
    → set_provider_override u p quota origin db ≡ ok stored
    → (valid quota ≡ ok tt)
      × (is_known quota ≡ true)
      × (lookup w (user_policy u stored).provider_overrides
          ≡ (if p == w then some quota else lookup w (user_policy u db).provider_overrides))
unfolding user_policy
user_policy-set_provider_override u p w quota origin db stored h =
    let row : OverrideRow = record {
      user_id = u;
      provider_id = p;
      quota = quota;
      origin = origin;
    } in
    let (good, known, same) = accepted u p quota origin db stored h in
    (
      good,
      known,
      subst
          (λ rows.
            lookup w (overrides_of u rows [])
            ≡ (if p == w then some quota else lookup w (overrides_of u db.overrides [])))
          same (overrides_of-put row db.overrides w),
    )

filed-other :
    (v : ℕ) (x : OverrideRow) (m : Dict ℕ Quota) → (x.user_id == v) ≡ false → filed v x m ≡ m
filed-other v x m n = rw (n) refl

same_head :
    (v : ℕ) (row x : OverrideRow) (m : Dict ℕ Quota)
    → (row.user_id == v) ≡ false
    → filed v (if of_pair row.user_id row.provider_id x then row else x) m ≡ filed v x m
unfolding of_pair
same_head v row x m n = elim (Bool-cases (of_pair row.user_id row.provider_id x)) [
  | inr other ↦ rw (other) refl
  | inl pair ↦
      let gone : (x.user_id == v) ≡ false = ground (
        arith,
        n,
        pair,
        ℕ_eq.same_iff x.user_id row.user_id,
        ℕ_eq.same_iff x.user_id v,
        ℕ_eq.same_iff row.user_id v,
      ) in
      rw (pair) (filed-other v row m n ∙ sym (filed-other v x m gone))
]

overrides_of-other :
    (v : ℕ) (row : OverrideRow) (rows : List OverrideRow) (m : Dict ℕ Quota)
    → (row.user_id == v) ≡ false
    → overrides_of v (update_where (of_pair row.user_id row.provider_id) (λ _. row) rows) m
      ≡ overrides_of v rows m
unfolding overrides_of update_where
overrides_of-other v row [] m n = refl
overrides_of-other v row (x ∷ rows) m n =
    let head : filed v (if of_pair row.user_id row.provider_id x then row else x) m ≡ filed v x m =
      same_head v row x m n in
    ap (overrides_of v (update_where (of_pair row.user_id row.provider_id) (λ _. row) rows)) head
    ∙ overrides_of-other v row rows (filed v x m) n

put_override-other :
    (v : ℕ) (row : OverrideRow) (rows : List OverrideRow)
    → (row.user_id == v) ≡ false
    → overrides_of v (put_override row rows) [] ≡ overrides_of v rows []
unfolding put_override
put_override-other v row rows n =
    by_test (λ l. overrides_of v l [] ≡ overrides_of v rows [])
      (exists_row (of_pair row.user_id row.provider_id) rows) _ _
      (λ _. overrides_of-other v row rows [] n)
      (λ _. overrides_of-append v row rows [] ∙ filed-other v row (overrides_of v rows []) n)

-- `SetProviderOverride` leaves every other pair of a person and a provider as it was.
pub user_policy_other-set_provider_override :
    (u p : ℕ) (quota : Quota) (origin : OverrideOrigin) (db stored : PolicyDb) (v w : ℕ)
    → set_provider_override u p quota origin db ≡ ok stored
    → (u == v && p == w) ≡ false
    → lookup w (user_policy v stored).provider_overrides
      ≡ lookup w (user_policy v db).provider_overrides
unfolding user_policy
user_policy_other-set_provider_override u p quota origin db stored v w h n =
    elim (Bool-cases (u == v)) [
      | inl same ↦
          let e : u ≡ v = (ℕ_eq.same_iff u v).0 same in
          let (_, _, read) = user_policy-set_provider_override u p w quota origin db stored h in
          let other : (p == w) ≡ false = ground (arith, n, same) in
          subst
            (λ x.
              lookup w (overrides_of x stored.overrides [])
              ≡ lookup w (overrides_of x db.overrides []))
            e (unfold user_policy in ground (arith, read, other))
      | inr differ ↦
          let row : OverrideRow = record {
            user_id = u;
            provider_id = p;
            quota = quota;
            origin = origin;
          } in
          let (_, _, same) = accepted u p quota origin db stored h in
          ap (lookup w) (
            ap (λ rows. overrides_of v rows []) (sym same)
            ∙ put_override-other v row db.overrides differ)
    ]
