-- ===== src/Core/Policy/Validation.antt =====
-- `Tier.Validate` of internal/core/policy.go against what it is meant to refuse.
use nuno.Prelude.{
  ℕ, ◌+◌, ◌-◌, ◌^◌, ◌≤◌, ◌<◌, ◌≡◌, ◌≢◌, refl, ◌∙◌, Bool, true, false, not, ◌&&◌, ◌||◌, List, [],
  ◌∷◌, All, arith, ok, contains, inl, inr, Result-cases, ◌↔◌, if◌then◌else◌, ℕ_eq,
}
use nuno.Prelude.Int.{ℤ, pos, negsuc, pos_part, ◌≤ℤ◌, ltb_ℤ, add64, add64-pos, wrap64, ◌+ℤ◌}
use nuno.Prelude.Text.{text_eq, trim_space}
use nuno.Core.Quota.{kind_bytes, valid, is_bytes}
use nuno.Core.Policy.{
  AllocationMode, mode_absolute, mode_percent, mode_unlimited, mode_other, mode_valid, Allocation,
  Tier, check_allocations, validate,
}

-- The bytes of the absolute allocations, as an exact sum.
abbrev pub absolute_part : AllocationMode → ℤ → ℕ
absolute_part mode_absolute v = pos_part v
absolute_part _ v = 0

abbrev pub absolute_total : List Allocation → ℕ
absolute_total [] = 0
absolute_total (a ∷ rest) = absolute_part a.mode a.value + absolute_total rest

abbrev is_percent : AllocationMode → Bool
is_percent mode_percent = true
is_percent _ = false

abbrev pub has_percent : List Allocation → Bool
has_percent [] = false
has_percent (a ∷ rest) = if is_percent a.mode then true else has_percent rest

-- A value that its mode can carry.
abbrev pub IsSane : AllocationMode → ℤ → Type 0
IsSane mode_absolute (pos n) = Unit
IsSane mode_absolute (negsuc n) = ⊥
IsSane mode_percent (pos n) = n ≤ 100
IsSane mode_percent (negsuc n) = ⊥
IsSane mode_unlimited v = Unit
IsSane (mode_other s) v = ⊥

abbrev pub IsSaneAllocation : Allocation → Type 0
IsSaneAllocation a = IsSane a.mode a.value

abbrev pub IsDistinct : List Allocation → Type 0
IsDistinct [] = Unit
IsDistinct (a ∷ rest) = All (λ b. a.provider_id ≢ b.provider_id) rest × IsDistinct rest

abbrev IsUnseen : List ℕ → List Allocation → Type 0
IsUnseen seen = All (λ b. contains b.provider_id seen ≡ false)

-- A tier that resolves honestly.
pub record IsHonest (t : Tier) : Type 0 where
  pub named : text_eq (trim_space t.name) [] ≡ false
  pub budget_valid : valid t.budget ≡ ok tt
  pub distinct : IsDistinct t.allocations
  pub sane : All IsSaneAllocation t.allocations
  pub percent_of_bytes : has_percent t.allocations && not (is_bytes t.budget) ≡ false
  pub fits : is_bytes t.budget ≡ true → pos (absolute_total t.allocations) ≤ℤ t.budget.bytes

-- What one allocation that passes has shown, and what the loop goes on with.
check_step :
    (p : ℕ) (m : AllocationMode) (v : ℤ) (rest : List Allocation) (seen : List ℕ) (n : ℕ)
    (hp : Bool) (r : ℤ × Bool)
    → n + absolute_part m v < 2 ^ 63
    → check_allocations (record { provider_id = p; mode = m; value = v } ∷ rest) seen (pos n) hp
      ≡ ok r
    → (contains p seen ≡ false)
      × IsSane m v
      × (check_allocations rest (p ∷ seen) (pos (n + absolute_part m v)) (hp || is_percent m)
          ≡ ok r)
unfolding check_allocations mode_valid
check_step p mode_absolute (pos k) rest seen n hp r h e = ground (arith, add64-pos n k)
check_step p mode_absolute (negsuc k) rest seen n hp r h e = ground arith
check_step p mode_percent (pos k) rest seen n hp r h e = ground arith
check_step p mode_percent (negsuc k) rest seen n hp r h e = ground arith
check_step p mode_unlimited v rest seen n hp r h e = ground arith
check_step p (mode_other s) v rest seen n hp r h e = ground arith

check_pass :
    (p : ℕ) (m : AllocationMode) (v : ℤ) (rest : List Allocation) (seen : List ℕ) (n : ℕ)
    (hp : Bool) (r : ℤ × Bool)
    → n + absolute_part m v < 2 ^ 63
    → contains p seen ≡ false
    → IsSane m v
    → check_allocations rest (p ∷ seen) (pos (n + absolute_part m v)) (hp || is_percent m) ≡ ok r
    → check_allocations (record { provider_id = p; mode = m; value = v } ∷ rest) seen (pos n) hp
      ≡ ok r
unfolding check_allocations mode_valid
check_pass p mode_absolute (pos k) rest seen n hp r h c s e = ground (arith, add64-pos n k)
check_pass p mode_absolute (negsuc k) rest seen n hp r h c s e = absurd s
check_pass p mode_percent (pos k) rest seen n hp r h c s e = ground arith
check_pass p mode_percent (negsuc k) rest seen n hp r h c s e = absurd s
check_pass p mode_unlimited v rest seen n hp r h c s e = ground arith
check_pass p (mode_other t) v rest seen n hp r h c s e = absurd s

IsUnseen-tail :
    (p : ℕ) (seen : List ℕ) (l : List Allocation)
    → IsUnseen (p ∷ seen) l
    → All (λ b. p ≢ b.provider_id) l × IsUnseen seen l
unfolding contains
IsUnseen-tail p seen [] h = (tt, tt)
IsUnseen-tail p seen (b ∷ l) h =
    let (k, u) = IsUnseen-tail p seen l h.1 in ((ground arith, k), (ground arith, u))

IsUnseen-cons :
    (p : ℕ) (seen : List ℕ) (l : List Allocation)
    → All (λ b. p ≢ b.provider_id) l
    → IsUnseen seen l
    → IsUnseen (p ∷ seen) l
unfolding contains
IsUnseen-cons p seen [] h u = tt
IsUnseen-cons p seen (b ∷ l) h u = (ground (arith, h.0, u.0), IsUnseen-cons p seen l h.1 u.1)

abbrev totals_of : ℕ → Bool → List Allocation → ℤ × Bool
totals_of n hp l = (pos (n + absolute_total l), hp || has_percent l)

check_sound :
    (l : List Allocation) (seen : List ℕ) (n : ℕ) (hp : Bool) (r : ℤ × Bool)
    → n + absolute_total l < 2 ^ 63
    → check_allocations l seen (pos n) hp ≡ ok r
    → (r ≡ totals_of n hp l) × All IsSaneAllocation l × IsDistinct l × IsUnseen seen l
check_sound [] seen n hp r h e = unfold check_allocations in (ground arith, tt, tt, tt)
check_sound (a ∷ l) seen n hp r h e =
    let (c, s, e') = check_step a.provider_id a.mode a.value l seen n hp r (omega arith) e in
    let (t, ss, d, u) =
      check_sound l (a.provider_id ∷ seen) (n + absolute_part a.mode a.value)
        (hp || is_percent a.mode) r (omega arith) e' in
    let (k, u') = IsUnseen-tail a.provider_id seen l u in (ground arith, (s, ss), (k, d), (c, u'))

check_complete :
    (l : List Allocation) (seen : List ℕ) (n : ℕ) (hp : Bool)
    → n + absolute_total l < 2 ^ 63
    → All IsSaneAllocation l
    → IsDistinct l
    → IsUnseen seen l
    → check_allocations l seen (pos n) hp ≡ ok (totals_of n hp l)
check_complete [] seen n hp h s d u = unfold check_allocations in ground arith
check_complete (a ∷ l) seen n hp h (s, ss) (k, d) (c, u) =
    check_pass a.provider_id a.mode a.value l seen n hp _ (omega arith) c s (
      check_complete l (a.provider_id ∷ seen) (n + absolute_part a.mode a.value)
        (hp || is_percent a.mode) (omega arith) ss d (IsUnseen-cons a.provider_id seen l k u)
      ∙ ground arith)

IsUnseen-nil : (l : List Allocation) → IsUnseen [] l
unfolding contains
IsUnseen-nil [] = tt
IsUnseen-nil (b ∷ l) = (refl, IsUnseen-nil l)

-- With the loop's result known, the tests that stand round it.
validate_inv :
    (t : Tier)
    → validate t ≡ ok tt
    → (r : ℤ × Bool) × (check_allocations t.allocations [] (pos 0) false ≡ ok r)
      × (text_eq (trim_space t.name) [] ≡ false)
      × (valid t.budget ≡ ok tt)
      × (r.1 && not (is_bytes t.budget) ≡ false)
      × (is_bytes t.budget && ltb_ℤ t.budget.bytes r.0 ≡ false)
unfolding validate
validate_inv t h = elim (Result-cases (check_allocations t.allocations [] (pos 0) false)) [
  | inl (r, e) ↦ (r, e, ground arith, ground arith, ground arith, ground arith)
  | inr (x, e) ↦ absurd (ground arith)
]

-- A tier whose absolute allocations add up to less than 2 ^ 63 is accepted exactly when it is
-- honest: it has a name, a valid budget, one allocation per provider, each with a mode that is
-- known and a value in that mode's range, a budget in bytes where it has a percentage, and no
-- more absolute bytes than such a budget.
pub validate_iff :
    (t : Tier) → absolute_total t.allocations < 2 ^ 63 → (validate t ≡ ok tt) ↔ IsHonest t
validate_iff t bound = (sound, complete)
  where
    sound : validate t ≡ ok tt → IsHonest t
    sound h =
        let (r, e, named, budget, p, f) = validate_inv t h in
        let (total, sane, distinct, _) = check_sound t.allocations [] 0 false r (omega arith) e in
        record {
          named = named;
          budget_valid = budget;
          distinct = distinct;
          sane = sane;
          percent_of_bytes = ground arith;
          fits = λ b. ground arith;
        }

    complete : IsHonest t → validate t ≡ ok tt
    complete h =
        unfold validate in
        rw
          (check_complete t.allocations [] 0 false (omega arith) h.sane h.distinct (IsUnseen-nil _))
          (ground (arith, h.named, h.budget_valid, h.percent_of_bytes, h.fits))

-- Two absolute allocations whose sum does not fit an int64: the tier is accepted whatever its
-- budget in bytes is, since the wrapped sum is negative.
pub validate_overflow :
    (t : Tier) (p q x y b : ℕ)
    → text_eq (trim_space t.name) [] ≡ false
    → p ≢ q
    → t.budget ≡ record { kind = kind_bytes; bytes = pos b }
    → t.allocations
      ≡ record { provider_id = p; mode = mode_absolute; value = pos x }
        ∷ record { provider_id = q; mode = mode_absolute; value = pos y }
        ∷ []
    → x < 2 ^ 63
    → y < 2 ^ 63
    → 2 ^ 63 ≤ x + y
    → validate t ≡ ok tt
unfolding validate check_allocations mode_valid contains
validate_overflow t p q x y b named ne e l hx hy h =
    let sum : add64 (pos x) (pos y) ≡ negsuc (2 ^ 64 - 1 - (x + y)) =
      unfold add64 wrap64 ◌+ℤ◌ in ground arith in
    let first : add64 (pos 0) (pos x) ≡ pos x = add64-pos 0 x (omega arith) ∙ ground arith in
    rw (l, e, named) (unfold valid is_bytes in ground arith)
