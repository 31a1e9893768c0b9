-- ===== src/Reconcile/Cycle/Loaded.antt =====
-- The states as `loadStates` of internal/reconcile/link.go fills them.
use nuno.Prelude.{
  ℕ, ◌≡◌, refl, ◌∙◌, sym, subst, inl, inr, true, Option, none, some, List, [], ◌∷◌, Memᴰ, All,
  by_test, Option-cases, arith, ℕ_eq, ◌==◌,
}
use nuno.Prelude.Text.{Text_eq, text_lt}
use nuno.Prelude.Dict.{lookup, lookup-index_by}
use nuno.Prelude.Table.{rows_where, rows_where-mem}
use nuno.Prelude.Sort.{sort_by, mem-sort_by}
use nuno.Core.Model.{User, UserStatus, user_active, ExternalAccount}
use nuno.Store.Links.{list_links}
use nuno.Store.Accounts.{list_external_accounts}
use nuno.Store.Db.{Db}
use nuno.Reconcile.Instance.{Instance}
use nuno.Reconcile.Link.{ProviderState}
use nuno.Reconcile.Link.Owners.{IsIndexed, IsSameProvider}
use nuno.Reconcile.Link.Kept.{HasExternalIds}
use nuno.Reconcile.Cycle.{
  CycleReport, ProviderResult, new_state, usable, load_state, load_states, slot_of, get_elem?,
  active_users, result_ok,
}

-- The people that `link` passes on.
abbrev pub linkable : Db → List User
linkable db = active_users (sort_by (λ (a b : User). text_lt a.source_uuid b.source_uuid) db.users)

active_users-mem :
    (l : List User) (u : User) → Memᴰ u (active_users l) → Memᴰ u l × (u.status ≡ user_active)
unfolding active_users
active_users-mem [] u m = elim m [ ]
active_users-mem (x ∷ l) u m = go (active_users-mem l u) x.status refl m
  where
    go :
        (Memᴰ u (active_users l) → Memᴰ u l × (u.status ≡ user_active))
        → (status : UserStatus) → x.status ≡ status
        → Memᴰ u (elim status as (λ _. List User) [
          | user_active ↦ x ∷ active_users l
          | _ ↦ active_users l
        ])
        → Memᴰ u (x ∷ l) × (u.status ≡ user_active)
    go later user_active e (Memᴰ.head p) =
        (Memᴰ.head p, subst (λ (y : User). y.status ≡ user_active) (sym p) e)
    go later user_active e (Memᴰ.tail k) = let (n, a) = later k in (Memᴰ.tail n, a)
    go later _ e k = let (n, a) = later k in (Memᴰ.tail n, a)

pub linkable-mem :
    (db : Db) (u : User) → Memᴰ u (linkable db) → Memᴰ u db.users × (u.status ≡ user_active)
linkable-mem db u m =
    let less = λ (a b : User). text_lt a.source_uuid b.source_uuid in
    let (n, a) = active_users-mem (sort_by less db.users) u m in
    ((mem-sort_by less u db.users).1 n, a)

pub list_external_accounts-mem :
    (id : ℕ) (l : List ExternalAccount) (a : ExternalAccount)
    → Memᴰ a (list_external_accounts id l)
    → Memᴰ a l × (a.provider_id ≡ id)
unfolding list_external_accounts
list_external_accounts-mem id l a m =
    let rows = rows_where (λ (row : ExternalAccount). row.provider_id == id) l in
    let listed =
      (mem-sort_by (λ (b c : ExternalAccount). text_lt b.external_id c.external_id) a rows).1 m in
    let (row, provider) =
      rows_where-mem (λ (r : ExternalAccount). r.provider_id == id) l a listed in
    (row, (ℕ_eq.same_iff a.provider_id id).0 provider)

-- The key of the table: the accounts of one provider have different external ids.
abbrev pub HasAccountKeys : List ExternalAccount → Type 0
HasAccountKeys accounts =
    (a b : ExternalAccount)
    → Memᴰ a accounts
    → Memᴰ b accounts
    → a.provider_id ≡ b.provider_id
    → a.external_id ≡ b.external_id
    → a ≡ b

module _ {W : Type 0} (db : Db) (report : CycleReport) (instances : List (Instance W)) where
  -- The state is of a configured provider that can list its users and whose result in the report
  -- has no error, over the accounts that are stored for it.
  pub record IsRead (s : ProviderState) : Type 0 where
    pub instance : Instance W
    pub configured : Memᴰ instance instances
    pub is_row : s.row ≡ instance.row
    pub can_read : instance.provider.can_read_users ≡ true
    pub result : ProviderResult
    pub reported : get_elem? report.providers s.slot ≡ some result
    pub no_error : result.error ≡ none
    pub accounts : s.accounts ≡ list_external_accounts instance.row.id db.accounts

  pub IsRead-move : (s t : ProviderState) → IsSameProvider s t → IsRead s → IsRead t
  IsRead-move s t e r = record {
    instance = r.instance;
    configured = r.configured;
    is_row = e.row ∙ r.is_row;
    can_read = r.can_read;
    result = r.result;
    reported = subst (λ n. get_elem? report.providers n ≡ some r.result) (sym e.slot) r.reported;
    no_error = r.no_error;
    accounts = e.accounts ∙ r.accounts;
  }

  -- A state as it is loaded: nobody owns anything yet.
  pub record IsFresh (s : ProviderState) : Type 0 where
    pub no_owner : s.owner ≡ []
    pub no_links : s.new_links ≡ []
    pub indexed : IsIndexed s.accounts s.by_id
    pub was_read : IsRead s

  usable_result :
      (i : Instance W) (o : Option ProviderResult)
      → usable i o ≡ true
      → (i.provider.can_read_users ≡ true)
        × ((r : ProviderResult) × (o ≡ some r) × (r.error ≡ none))
  unfolding usable result_ok
  usable_result i none h = absurd (cc h)
  usable_result i (some r) h = (
    ground (arith, h),
    (
      r,
      refl,
      elim (Option-cases r.error) [ inl n ↦ n | inr (why, e) ↦ absurd (ground (arith, h, e)) ],
    ),
  )

  new_state-IsFresh :
      (slot : ℕ) (i : Instance W)
      → Memᴰ i instances
      → usable i (get_elem? report.providers slot) ≡ true
      → IsFresh
          (new_state slot i (list_links db.links) (list_external_accounts i.row.id db.accounts))
  unfolding new_state
  new_state-IsFresh slot i m h =
      let accounts = list_external_accounts i.row.id db.accounts in
      let (can, (r, reported, good)) = usable_result i (get_elem? report.providers slot) h in
      record {
        no_owner = refl;
        no_links = refl;
        indexed = record {
          indexed = λ x a e.
              elim (lookup-index_by (λ (y : ExternalAccount). y.external_id) accounts [] x a e) [
                | inl bad ↦ absurd (unfold lookup in cc bad)
                | inr found ↦ found
              ];
        };
        was_read = record {
          instance = i;
          configured = m;
          is_row = refl;
          can_read = can;
          result = r;
          reported = reported;
          no_error = good;
          accounts = refl;
        };
      }

  load_state-IsFresh :
      (i : Instance W) (o : Option ℕ) (later : List ProviderState)
      → Memᴰ i instances
      → All IsFresh later
      → All IsFresh (load_state db report i o later)
  unfolding load_state
  load_state-IsFresh i none later m h = h
  load_state-IsFresh i (some slot) later m h =
      by_test (All IsFresh) (usable i (get_elem? report.providers slot)) _ _
        (λ u. (new_state-IsFresh slot i m u, h)) (λ _. h)

  pub load_states-IsFresh :
      (l : List (Instance W))
      → ((i : Instance W) → Memᴰ i l → Memᴰ i instances)
      → All IsFresh (load_states db report l)
  unfolding load_states
  load_states-IsFresh [] inside = tt
  load_states-IsFresh (i ∷ rest) inside =
      load_state-IsFresh i (slot_of i.row.name report.providers 0 none) (load_states db report rest)
        (inside i (Memᴰ.head refl)) (load_states-IsFresh rest (λ j m. inside j (Memᴰ.tail m)))

  pub IsRead-HasExternalIds :
      (s : ProviderState) → HasAccountKeys db.accounts → IsRead s → HasExternalIds s.accounts
  IsRead-HasExternalIds s unique r a b m n e =
      let listed = list_external_accounts-mem r.instance.row.id db.accounts in
      let (ma, pa) = listed a (subst (Memᴰ a) r.accounts m) in
      let (mb, pb) = listed b (subst (Memᴰ b) r.accounts n) in unique a b ma mb (pa ∙ sym pb) e
