-- ===== src/Store/Db.antt =====
-- The tables that a cycle reads and writes.
use nuno.Prelude.{List}
use nuno.Core.Model.{User, AccountLink, ExternalAccount, LinkIssue}

pub record Db : Type 0 where
  pub users : List User
  pub links : List AccountLink
  pub accounts : List ExternalAccount
  pub issues : List LinkIssue
