-- ===== src/Prelude/Sort.antt =====
-- `slices.SortFunc` with a comparison that says which of two values comes first.
use mathlib.Core.Path.{◌≡◌}
use mathlib.Core.Bool.{Bool, true, false}
use mathlib.Core.List.{List, [], ◌∷◌, Perm, Memᴰ}
use mathlib.Core.List.Perm
use nuno.Prelude.Tests.{if◌then◌else◌, Bool-cases}
use nuno.Prelude.Lists.{All}
use mathlib.Core.Logic.{inl, inr, ◌↔◌}

module _ {ℓ} {A : Type ℓ} (less : A → A → Bool) where
  unfoldable pub insert_by : A → List A → List A
  insert_by x [] = x ∷ []
  insert_by x (y ∷ ys) = if less y x then y ∷ insert_by x ys else x ∷ y ∷ ys

  unfoldable pub sort_by : List A → List A
  unfolding insert_by
  sort_by [] = []
  sort_by (x ∷ xs) = insert_by x (sort_by xs)

  -- No value comes after one that must follow it.
  abbrev pub IsSorted : List A → Type 0
  IsSorted [] = Unit
  IsSorted (x ∷ xs) = All (λ y. less y x ≡ false) xs × IsSorted xs

  pub insert_by-perm : (x : A) (l : List A) → Perm (insert_by x l) (x ∷ l)
  unfolding insert_by
  insert_by-perm x [] = Perm.refl (x ∷ [])
  insert_by-perm x (y ∷ ys) = elim (Bool-cases (less y x)) [
    | inl e ↦ rw e (Perm.trans (Perm.cons y (insert_by-perm x ys)) (Perm.swap x y ys))
    | inr e ↦ rw e (Perm.refl (x ∷ y ∷ ys))
  ]

  pub sort_by-perm : (l : List A) → Perm (sort_by l) l
  unfolding sort_by
  sort_by-perm [] = Perm.refl []
  sort_by-perm (x ∷ xs) = Perm.trans (insert_by-perm x (sort_by xs)) (Perm.cons x (sort_by-perm xs))

  module _ (asymm : (a b : A) → less a b ≡ true → less b a ≡ false)
      (ge_trans : (a b c : A) → less b a ≡ false → less c b ≡ false → less c a ≡ false) where
    All-ge_trans :
        (x y : A) (l : List A)
        → less y x ≡ false
        → All (λ z. less z y ≡ false) l
        → All (λ z. less z x ≡ false) l
    All-ge_trans x y [] h k = tt
    All-ge_trans x y (z ∷ l) h (k, ks) = (ge_trans x y z h k, All-ge_trans x y l h ks)

    All-insert_by :
        (x y : A) (l : List A)
        → less x y ≡ false
        → All (λ z. less z y ≡ false) l
        → All (λ z. less z y ≡ false) (insert_by x l)
    unfolding insert_by
    All-insert_by x y [] h k = (h, tt)
    All-insert_by x y (z ∷ l) h (k, ks) = elim (Bool-cases (less z x)) [
      | inl e ↦ rw e (k, All-insert_by x y l h ks)
      | inr e ↦ rw e (h, (k, ks))
    ]

    insert_by-IsSorted : (x : A) (l : List A) → IsSorted l → IsSorted (insert_by x l)
    unfolding insert_by
    insert_by-IsSorted x [] s = (tt, tt)
    insert_by-IsSorted x (y ∷ ys) (h, s) = elim (Bool-cases (less y x)) [
      | inl e ↦ rw e (All-insert_by x y ys (asymm y x e) h, insert_by-IsSorted x ys s)
      | inr e ↦ rw e ((e, All-ge_trans x y ys e h), (h, s))
    ]

    pub sort_by-IsSorted : (l : List A) → IsSorted (sort_by l)
    unfolding sort_by
    sort_by-IsSorted [] = tt
    sort_by-IsSorted (x ∷ xs) = insert_by-IsSorted x (sort_by xs) (sort_by-IsSorted xs)

-- A sorted list has the members of the list that was sorted.
module _ {ℓ} {A : Type ℓ} (less : A → A → Bool) (a : A) where
  mem_later :
      (x y : A) (ys zs : List A)
      → (Memᴰ a (x ∷ ys) → Memᴰ a zs)
      → Memᴰ a (x ∷ y ∷ ys)
      → Memᴰ a (y ∷ zs)
  mem_later x y ys zs f (Memᴰ.head e) = Memᴰ.tail (f (Memᴰ.head e))
  mem_later x y ys zs f (Memᴰ.tail (Memᴰ.head e)) = Memᴰ.head e
  mem_later x y ys zs f (Memᴰ.tail (Memᴰ.tail k)) = Memᴰ.tail (f (Memᴰ.tail k))

  mem_sooner :
      (x y : A) (ys zs : List A)
      → (Memᴰ a zs → Memᴰ a (x ∷ ys))
      → Memᴰ a (y ∷ zs)
      → Memᴰ a (x ∷ y ∷ ys)
  mem_sooner x y ys zs f (Memᴰ.head e) = Memᴰ.tail (Memᴰ.head e)
  mem_sooner x y ys zs f (Memᴰ.tail k) = after (f k)
    where
      after : Memᴰ a (x ∷ ys) → Memᴰ a (x ∷ y ∷ ys)
      after (Memᴰ.head e) = Memᴰ.head e
      after (Memᴰ.tail m) = Memᴰ.tail (Memᴰ.tail m)

  mem-insert_by : (x : A) (l : List A) → Memᴰ a (x ∷ l) ↔ Memᴰ a (insert_by less x l)
  unfolding insert_by
  mem-insert_by x [] = (λ m. m, λ m. m)
  mem-insert_by x (y ∷ ys) = elim (Bool-cases (less y x)) [
    | inl e ↦ rw e (
      mem_later x y ys (insert_by less x ys) (mem-insert_by x ys).0,
      mem_sooner x y ys (insert_by less x ys) (mem-insert_by x ys).1,
    )
    | inr e ↦ rw e (λ m. m, λ m. m)
  ]

  mem_cons_cong : (x : A) (l k : List A) → (Memᴰ a l → Memᴰ a k) → Memᴰ a (x ∷ l) → Memᴰ a (x ∷ k)
  mem_cons_cong x l k f (Memᴰ.head e) = Memᴰ.head e
  mem_cons_cong x l k f (Memᴰ.tail m) = Memᴰ.tail (f m)

  pub mem-sort_by : (l : List A) → Memᴰ a l ↔ Memᴰ a (sort_by less l)
  unfolding sort_by
  mem-sort_by [] = (λ m. m, λ m. m)
  mem-sort_by (x ∷ xs) =
      let (into, out) = mem-sort_by xs in
      let (to, from) = mem-insert_by x (sort_by less xs) in
      (
        λ m. to (mem_cons_cong x xs (sort_by less xs) into m),
        λ m. mem_cons_cong x (sort_by less xs) xs out (from m),
      )
