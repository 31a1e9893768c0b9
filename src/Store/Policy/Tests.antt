-- ===== src/Store/Policy/Tests.antt =====
-- A default tier beside another, an override of one person, and the theorems there.
use nuno.Prelude.{
  ℕ, ◌==◌, ◌≡◌, refl, Bool, true, false, ◌&&◌, none, some, List, [], ◌∷◌, ok, All, if◌then◌else◌,
  ℕ_eq,
}
use nuno.Prelude.Int.{pos}
use nuno.Prelude.Text.{Text, codes}
use nuno.Prelude.Dict.{lookup}
use nuno.Prelude.Table.{exists_row}
use nuno.Core.Quota.{Quota, kind_bytes, valid, is_known}
use nuno.Core.Policy.{Tier, mode_absolute, validate}
use nuno.Store.Policy.{
  TierRow, PolicyDb, OverrideRow, override_manual, override_adopted, save_tier, set_default_tier,
  set_provider_override, user_policy,
}
use nuno.Store.Policy.Defaults.{HasOneDefault, set_default_tier_lem, save_tier-HasOneDefault}
use nuno.Store.Policy.Overrides.{user_policy-set_provider_override}

abbrev bytes : ℕ → Quota
bytes n = record { kind = kind_bytes; bytes = pos n }

abbrev small : TierRow
small = record { id = 1; name = codes "small"; budget = bytes 10; is_default = true }

abbrev large : TierRow
large = record { id = 2; name = codes "large"; budget = bytes 90; is_default = false }

abbrev manual : OverrideRow
manual = record { user_id = 7; provider_id = 1; quota = bytes 5; origin = override_manual }

abbrev rows : List TierRow → List OverrideRow → PolicyDb
rows tiers overrides = record {
  tiers = tiers;
  allocations = [];
  groups = [];
  group_tiers = [];
  user_tiers = [];
  overrides = overrides;
}

abbrev larger : Tier
larger = record {
  id = 0;
  name = codes "large";
  budget = bytes 100;
  is_default = false;
  allocations = record { provider_id = 1; mode = mode_absolute; value = pos 40 } ∷ [];
}

abbrev before : PolicyDb
before = rows (small ∷ large ∷ []) (manual ∷ [])

abbrev moved : PolicyDb
moved =
    rows (record small { is_default = false } ∷ record large { is_default = true } ∷ [])
      (manual ∷ [])

abbrev enlarged : PolicyDb
enlarged = record (rows (small ∷ record large { budget = bytes 100 } ∷ []) (manual ∷ [])) {
  allocations =
      record {
        tier_id = 2;
        allocation = record { provider_id = 1; mode = mode_absolute; value = pos 40 };
      }
      ∷ [];
}

abbrev adopted : PolicyDb
adopted =
    rows (small ∷ large ∷ [])
      (record { user_id = 7; provider_id = 1; quota = bytes 6; origin = override_adopted } ∷ [])

abbrev Moved : PolicyDb → Type 0
Moved db =
    (exists_row (λ (row : TierRow). row.id == 2 && row.is_default) db.tiers ≡ true)
    × All (λ (row : TierRow). row.is_default ≡ (row.id == 2)) db.tiers

set_default_tier_lem_example : Moved moved
unfolding set_default_tier exists_row nuno.Prelude.Table.update_where
set_default_tier_lem_example = set_default_tier_lem 2 before moved refl

save_tier-HasOneDefault_example : (validate larger ≡ ok tt) × HasOneDefault enlarged
unfolding save_tier validate nuno.Core.Policy.mode_valid exists_row nuno.Prelude.Table.update_where
    nuno.Prelude.Table.delete_where nuno.Prelude.Text.text_eq nuno.Prelude.Text.trim_space valid
    nuno.Prelude.contains nuno.Core.Quota.is_bytes nuno.Prelude.Int.add64 nuno.Prelude.Int.wrap64
    nuno.Prelude.Int.◌+ℤ◌ nuno.Store.Policy.find_tier
save_tier-HasOneDefault_example =
    save_tier-HasOneDefault larger before enlarged 2 refl
      (1, ((λ d. refl), ((λ d. absurd (cc d)), tt)))

abbrev Reads : ℕ → ℕ → Type 0
Reads p w =
    (valid (bytes 6) ≡ ok tt)
    × (is_known (bytes 6) ≡ true)
    × (lookup w (user_policy 7 adopted).provider_overrides
        ≡ (if p == w then some (bytes 6) else lookup w (user_policy 7 before).provider_overrides))

user_policy-set_provider_override_example : Reads 1 1
unfolding set_provider_override valid is_known exists_row nuno.Prelude.Table.update_where
user_policy-set_provider_override_example =
    user_policy-set_provider_override 7 1 1 (bytes 6) override_adopted before adopted refl
