-- ===== src/Store.antt =====
-- The package internal/store: what each query does to the tables, as a function of their rows. A
-- unique key that a query runs into is modelled, and so is the reference of a link to its person;
-- the other references between tables are not: the rows that they lead to are taken to exist. Nor
-- is a failure of the database itself.
pub mod Db
pub mod Links
pub mod Accounts
pub mod Policy
pub mod Identity
pub mod Providers
