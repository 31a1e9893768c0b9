-- ===== src/Reconcile/Cycle/Owned.antt =====
-- Who owns what after all three ways to a link.
use nuno.Prelude.{ℕ, ◌≡◌, some, List, ℕ_eq}
use nuno.Prelude.Text.{Text, Text_eq}
use nuno.Prelude.Dict.{lookup}
use nuno.Core.Model.{user_active}
use nuno.Store.Db.{Db}
use nuno.Reconcile.Instance.{Instance}
use nuno.Reconcile.Link.{ProviderState}
use nuno.Reconcile.Link.Owners.{IsOwnership, AreKept}
use nuno.Reconcile.Cycle.{CycleReport}
use nuno.Reconcile.Cycle.Loaded.{IsRead}

module _ {W : Type 0} (db : Db) (report : CycleReport) (instances : List (Instance W)) where
  -- The owners, the new links and the provider of a state after the matching.
  pub record IsLinked (s : ProviderState) : Type 0 where
    pub read : IsRead db report instances s
    pub owned :
        (external_id : Text) (user_id : ℕ)
        → lookup external_id s.owner ≡ some user_id
        → (o : IsOwnership db.users s.accounts s.linked external_id user_id) × (o.user.status
            ≡ user_active)
    pub kept : AreKept s
