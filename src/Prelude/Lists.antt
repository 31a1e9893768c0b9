-- ===== src/Prelude/Lists.antt =====
-- Lists over the native numbers, and predicates by recursion.
use Prim.Native.Nat.{ℕ, suc, ◌+◌}
use mathlib.Core.Path.{◌≡◌, refl, sym, subst}
use mathlib.Core.Logic.{◌⊎◌, inl, inr}
use mathlib.Core.Bool.{Bool, true, false}
use mathlib.Core.List.{List, [], ◌∷◌, ◌++◌, Memᴰ, map}
use native.Mathlib.Omega.{arith}
use nuno.Prelude.Tests.{Key, ◌==◌, if◌then◌else◌}

module _ {ℓ} {A : Type ℓ} where
  abbrev pub length : List A → ℕ
  length [] = 0
  length (x ∷ xs) = suc (length xs)

  abbrev pub is_empty : List A → Bool
  is_empty [] = true
  is_empty (x ∷ xs) = false

  pub length-append : (xs ys : List A) → length (xs ++ ys) ≡ length xs + length ys
  length-append [] ys = omega arith
  length-append (x ∷ xs) ys = omega (arith, length-append xs ys)

-- `slices.Contains`
module _ {ℓ} {A : Type ℓ} ⦃e : Key A⦄ where
  unfoldable pub contains : A → List A → Bool
  contains a [] = false
  contains a (x ∷ xs) = if x == a then true else contains a xs

module _ {ℓ κ} {A : Type ℓ} where
  abbrev pub All : (A → Type κ) → List A → Type κ
  All P [] = Unit
  All P (x ∷ xs) = P x × All P xs

  pub All-append : (P : A → Type κ) (xs ys : List A) → All P xs → All P ys → All P (xs ++ ys)
  All-append P [] ys h k = k
  All-append P (x ∷ xs) ys (h, t) k = (h, All-append P xs ys t k)

  pub All-mem : (P : A → Type κ) {a : A} (xs : List A) → All P xs → Memᴰ a xs → P a
  All-mem P xs h (Memᴰ.head e) = subst P (sym e) h.0
  All-mem P xs h (Memᴰ.tail m) = All-mem P _ h.1 m

pub All_of_mem {ℓ κ} :
    {A : Type ℓ} (P : A → Type κ) (l : List A) → ((x : A) → Memᴰ x l → P x) → All P l
All_of_mem P [] f = tt
All_of_mem P (x ∷ l) f = (f x (Memᴰ.head refl), All_of_mem P l (λ y m. f y (Memᴰ.tail m)))

pub mem_map_inv {ℓ κ} :
    {A : Type ℓ} {B : Type κ} (f : A → B) (y : B) (l : List A)
    → Memᴰ y (map f l)
    → (x : A) × Memᴰ x l × (y ≡ f x)
mem_map_inv f y [] m = elim m [ ]
mem_map_inv f y (x ∷ l) (Memᴰ.head e) = (x, Memᴰ.head refl, e)
mem_map_inv f y (x ∷ l) (Memᴰ.tail m) = let (z, n, e) = mem_map_inv f y l m in (z, Memᴰ.tail n, e)

pub nil_of_no_mem {ℓ} : {A : Type ℓ} (l : List A) → ((x : A) → Memᴰ x l → ⊥) → l ≡ []
nil_of_no_mem [] h = refl
nil_of_no_mem (x ∷ l) h = absurd (h x (Memᴰ.head refl))

pub List-cases {ℓ} : {A : Type ℓ} (l : List A) → (l ≡ []) ⊎ ((x : A) × Memᴰ x l)
List-cases [] = inl refl
List-cases (x ∷ l) = inr (x, Memᴰ.head refl)

-- A member of a list whose head stands there under a test.
pub mem_if {ℓ κ} :
    {A : Type ℓ} {P : Type κ} (c : A) (b : Bool) (x : A) (l : List A)
    → (b ≡ true → c ≡ x → P)
    → (Memᴰ c l → P)
    → Memᴰ c (if b then x ∷ l else l)
    → P
mem_if c true x l f g (Memᴰ.head e) = f refl e
mem_if c true x l f g (Memᴰ.tail m) = g m
mem_if c false x l f g m = g m

pub mem_if_head {ℓ} :
    {A : Type ℓ} (b : Bool) (x : A) (l : List A) → b ≡ true → Memᴰ x (if b then x ∷ l else l)
mem_if_head true x l h = Memᴰ.head refl
mem_if_head false x l h = cc

pub mem_if_tail {ℓ} :
    {A : Type ℓ} (b : Bool) (x y : A) (l : List A) → Memᴰ y l → Memᴰ y (if b then x ∷ l else l)
mem_if_tail true x y l m = Memᴰ.tail m
mem_if_tail false x y l m = m

pub mem_append_left {ℓ} : {A : Type ℓ} {a : A} (xs ys : List A) → Memᴰ a xs → Memᴰ a (xs ++ ys)
mem_append_left [] ys m = elim m [ ]
mem_append_left (x ∷ xs) ys (Memᴰ.head e) = Memᴰ.head e
mem_append_left (x ∷ xs) ys (Memᴰ.tail m) = Memᴰ.tail (mem_append_left xs ys m)

pub mem_append_inv {ℓ} :
    {A : Type ℓ} {a : A} (xs ys : List A) → Memᴰ a (xs ++ ys) → Memᴰ a xs ⊎ Memᴰ a ys
mem_append_inv [] ys m = inr m
mem_append_inv (x ∷ xs) ys (Memᴰ.head e) = inl (Memᴰ.head e)
mem_append_inv (x ∷ xs) ys (Memᴰ.tail m) = elim (mem_append_inv xs ys m) [
  | inl n ↦ inl (Memᴰ.tail n)
  | inr n ↦ inr n
]

pub mem_append_right {ℓ} : {A : Type ℓ} {a : A} (xs ys : List A) → Memᴰ a ys → Memᴰ a (xs ++ ys)
mem_append_right [] ys m = m
mem_append_right (x ∷ xs) ys m = Memᴰ.tail (mem_append_right xs ys m)
