-- ===== src/Store/Links/Keys.antt =====
-- The keys of the table of links.
use nuno.Prelude.{◌≡◌, false, List, [], ◌∷◌, All, ℕ_eq, arith}
use nuno.Prelude.Text.{Text_eq}
use nuno.Core.Model.{AccountLink}
use nuno.Store.Links.{same_person, same_account}

-- Two rows of different people, and of different accounts.
abbrev pub AreApart : AccountLink → AccountLink → Type 0
AreApart a b = (same_person a b ≡ false) × (same_account a b ≡ false)

-- No two rows share a person and provider, nor a provider and account.
abbrev pub HasKeys : List AccountLink → Type 0
HasKeys [] = Unit
HasKeys (row ∷ rest) = All (AreApart row) rest × HasKeys rest

pub same_person_sym : (a b : AccountLink) → same_person a b ≡ same_person b a
unfolding same_person
same_person_sym a b =
    ground (arith, ℕ_eq.same_iff a.user_id b.user_id, ℕ_eq.same_iff a.provider_id b.provider_id)
