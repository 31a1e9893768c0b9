-- ===== src/Prelude/Table.antt =====
-- A table of the database as the list of its rows.
use Prim.Native.Nat.{ℕ, ◌+◌}
use native.Mathlib.Omega.{arith}
use mathlib.Core.Path.{◌≡◌, refl, sym, subst, ap}
use mathlib.Core.Bool.{Bool, true, false, not, ◌||◌}
use mathlib.Core.List.{List, [], ◌∷◌, ◌++◌, Memᴰ}
use nuno.Prelude.Tests.{if◌then◌else◌, ltb}
use nuno.Prelude.Lists.{mem_if}

module _ {ℓ} {A : Type ℓ} where
  -- `WHERE`
  unfoldable pub rows_where : (A → Bool) → List A → List A
  rows_where test [] = []
  rows_where test (row ∷ rest) =
      let later = rows_where test rest in if test row then row ∷ later else later

  -- Whether a row meets the test.
  unfoldable pub exists_row : (A → Bool) → List A → Bool
  exists_row test [] = false
  exists_row test (row ∷ rest) = test row || exists_row test rest

  -- `UPDATE … WHERE`
  unfoldable pub update_where : (A → Bool) → (A → A) → List A → List A
  update_where test change [] = []
  update_where test change (row ∷ rest) =
      (if test row then change row else row) ∷ update_where test change rest

  -- `DELETE … WHERE`
  unfoldable pub delete_where : (A → Bool) → List A → List A
  unfolding rows_where
  delete_where test rows = rows_where (λ row. not (test row)) rows

  -- The id that the database gives to a new row.
  unfoldable pub next_id : (A → ℕ) → List A → ℕ
  next_id id [] = 1
  next_id id (row ∷ rest) =
      let later = next_id id rest in if ltb (id row) later then later else id row + 1

  pub next_id-fresh :
      (id : A → ℕ) (rows : List A) (row : A) → Memᴰ row rows → ltb (id row) (next_id id rows) ≡ true
  unfolding next_id
  next_id-fresh id [] row m = elim m [ ]
  next_id-fresh id (x ∷ rest) row (Memᴰ.head e) =
      subst (λ y. ltb (id y) (next_id id (x ∷ rest)) ≡ true) (sym e) (ground arith)
  next_id-fresh id (x ∷ rest) row (Memᴰ.tail m) = ground (arith, next_id-fresh id rest row m)

  pub exists_row_of_mem :
      (test : A → Bool) (rows : List A) (row : A)
      → Memᴰ row rows
      → test row ≡ true
      → exists_row test rows ≡ true
  unfolding exists_row
  exists_row_of_mem test [] row m h = elim m [ ]
  exists_row_of_mem test (x ∷ rest) row (Memᴰ.head e) h =
      ground (arith, subst (λ y. test y ≡ true) e h)
  exists_row_of_mem test (x ∷ rest) row (Memᴰ.tail m) h =
      ground (arith, exists_row_of_mem test rest row m h)

  -- A row that meets a test meets it after an update that keeps it so.
  pub exists_row-update :
      (wanted test : A → Bool) (change : A → A) (rows : List A)
      → ((row : A) → wanted row ≡ true → wanted (if test row then change row else row) ≡ true)
      → exists_row wanted rows ≡ true
      → exists_row wanted (update_where test change rows) ≡ true
  unfolding exists_row update_where
  exists_row-update wanted test change [] keep h = h
  exists_row-update wanted test change (row ∷ rest) keep h =
      ground (arith, h, keep row, exists_row-update wanted test change rest keep)

  pub exists_row-append :
      (wanted : A → Bool) (rows more : List A)
      → exists_row wanted (rows ++ more) ≡ (exists_row wanted rows || exists_row wanted more)
  unfolding exists_row
  exists_row-append wanted [] more = refl
  exists_row-append wanted (row ∷ rest) more = ground (arith, exists_row-append wanted rest more)

  -- Each row of an updated table comes from a row, and each row goes to one.
  pub update_where-mem :
      (test : A → Bool) (change : A → A) (rows : List A) (row : A)
      → Memᴰ row rows
      → Memᴰ (if test row then change row else row) (update_where test change rows)
  unfolding update_where
  update_where-mem test change [] row m = elim m [ ]
  update_where-mem test change (x ∷ rest) row (Memᴰ.head e) =
      Memᴰ.head (ap (λ y. if test y then change y else y) e)
  update_where-mem test change (x ∷ rest) row (Memᴰ.tail m) =
      Memᴰ.tail (update_where-mem test change rest row m)

  pub update_where-mem_inv :
      (test : A → Bool) (change : A → A) (rows : List A) (row : A)
      → Memᴰ row (update_where test change rows)
      → (old : A) × Memᴰ old rows × (row ≡ (if test old then change old else old))
  unfolding update_where
  update_where-mem_inv test change [] row m = elim m [ ]
  update_where-mem_inv test change (x ∷ rest) row (Memᴰ.head e) = (x, Memᴰ.head refl, e)
  update_where-mem_inv test change (x ∷ rest) row (Memᴰ.tail m) =
      let (old, n, e) = update_where-mem_inv test change rest row m in (old, Memᴰ.tail n, e)

  pub rows_where-mem :
      (test : A → Bool) (rows : List A) (row : A)
      → Memᴰ row (rows_where test rows)
      → Memᴰ row rows × (test row ≡ true)
  unfolding rows_where
  rows_where-mem test [] row m = elim m [ ]
  rows_where-mem test (x ∷ rows) row m =
      mem_if row (test x) x (rows_where test rows)
        (λ t e. (Memᴰ.head e, subst (λ y. test y ≡ true) (sym e) t))
        (λ k. let (n, t) = rows_where-mem test rows row k in (Memᴰ.tail n, t)) m
