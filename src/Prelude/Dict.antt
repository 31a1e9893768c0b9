-- ===== src/Prelude/Dict.antt =====
-- A Go map as an association list; a key that is written again keeps one entry.
use mathlib.Core.Bool.{Bool, true, false}
use mathlib.Core.Path.{◌≡◌, refl, sym, ap, ◌∙◌}
use mathlib.Core.List.{List, [], ◌∷◌, Memᴰ}
use mathlib.Core.Logic.{◌⊎◌, inl, inr}
use mathlib.Core.Option.{Option, none, some}
use native.Mathlib.Omega.{arith}
use nuno.Prelude.Tests.{Key, ◌==◌, if◌then◌else◌, Bool-cases, Option-cases}

abbrev pub Dict {ℓ} : Type ℓ → Type ℓ → Type ℓ
Dict K V = List (K × V)

module _ {ℓ} {K V : Type ℓ} ⦃key : Key K⦄ where
  unfoldable pub lookup : K → Dict K V → Option V
  lookup wanted [] = none
  lookup wanted (entry ∷ rest) = if entry.0 == wanted then some entry.1 else lookup wanted rest

  -- `m[k] = v`
  unfoldable pub write : K → V → Dict K V → Dict K V
  write wanted value [] = (wanted, value) ∷ []
  write wanted value (entry ∷ rest) =
      let unchanged = write wanted value rest in
      if entry.0 == wanted then (wanted, value) ∷ rest else entry ∷ unchanged

  -- A loop that files each value under its key; the last of two with one key stays.
  unfoldable pub index_by : (V → K) → List V → Dict K V → Dict K V
  index_by f [] m = m
  index_by f (x ∷ rest) m = index_by f rest (write (f x) x m)

  -- `_, ok := m[k]`
  unfoldable pub has : K → Dict K V → Bool
  unfolding lookup
  has wanted m = elim (lookup wanted m) [ none ↦ false | some _ ↦ true ]

  pub lookup-write :
      (written wanted : K) (value : V) (m : Dict K V)
      → lookup wanted (write written value m)
        ≡ (if written == wanted then some value else lookup wanted m)
  unfolding lookup write
  lookup-write written wanted value [] = refl
  lookup-write written wanted value (entry ∷ rest) = ground (
    arith,
    lookup-write written wanted value rest,
    key.same_iff written wanted,
    key.same_iff entry.0 written,
    key.same_iff entry.0 wanted,
  )

  -- What stands under a key was there before, or is one of the values.
  pub lookup-index_by :
      (f : V → K) (l : List V) (m : Dict K V) (wanted : K) (x : V)
      → lookup wanted (index_by f l m) ≡ some x
      → (lookup wanted m ≡ some x) ⊎ (Memᴰ x l × (f x ≡ wanted))
  unfolding index_by
  lookup-index_by f [] m wanted x h = inl h
  lookup-index_by f (y ∷ l) m wanted x h = elim (lookup-index_by f l (write (f y) y m) wanted x h) [
    | inr (n, e) ↦ inr (Memᴰ.tail n, e)
    | inl k ↦ elim (Bool-cases (f y == wanted)) [
      | inl same ↦
          let found : some y ≡ some x =
            sym
              (lookup-write (f y) wanted y m ∙ ap (λ b. if b then some y else lookup wanted m) same)
            ∙ k in
          let e : y ≡ x = cc found in
          inr (Memᴰ.head (sym e), ap f (sym e) ∙ (key.same_iff (f y) wanted).0 same)
      | inr other ↦ inl (
          sym
            (lookup-write (f y) wanted y m ∙ ap (λ b. if b then some y else lookup wanted m) other)
          ∙ k)
    ]
  ]

  pub lookup-write_same : (k : K) (v : V) (m : Dict K V) → lookup k (write k v m) ≡ some v
  lookup-write_same k v m =
      lookup-write k k v m ∙ ap (λ b. if b then some v else lookup k m) ((key.same_iff k k).1 refl)

  pub lookup-write_other :
      (k j : K) (v : V) (m : Dict K V) → (k == j) ≡ false → lookup j (write k v m) ≡ lookup j m
  lookup-write_other k j v m n = lookup-write k j v m ∙ ap (λ b. if b then some v else lookup j m) n

  pub lookup-write_inv :
      (k j : K) (v w : V) (m : Dict K V)
      → lookup j (write k v m) ≡ some w
      → ((k ≡ j) × (v ≡ w)) ⊎ (((k == j) ≡ false) × (lookup j m ≡ some w))
  lookup-write_inv k j v w m h = elim (Bool-cases (k == j)) [
    | inl same ↦
        let found : some v ≡ some w =
          sym (lookup-write k j v m ∙ ap (λ b. if b then some v else lookup j m) same) ∙ h in
        inl ((key.same_iff k j).0 same, cc found)
    | inr other ↦ inr (other, sym (lookup-write_other k j v m other) ∙ h)
  ]

  pub has-none : (wanted : K) (m : Dict K V) → has wanted m ≡ false → lookup wanted m ≡ none
  unfolding has
  has-none wanted m h = elim (Option-cases (lookup wanted m)) [
    | inl n ↦ n
    | inr (x, e) ↦ absurd (ground (arith, h, e))
  ]

-- The keys, in the order of the entries.
unfoldable pub keys {ℓ} : {K V : Type ℓ} → Dict K V → List K
keys [] = []
keys (entry ∷ rest) = entry.0 ∷ keys rest
