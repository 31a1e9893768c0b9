-- ===== src/Core/Registry/Laws.antt =====
-- What a registration does to the providers that can be built.
use nuno.Prelude.{
  ◌≡◌, refl, sym, ◌∙◌, ap, ◌==◌, Option, none, some, ok, inl, inr, Bool-cases, is_empty,
  if◌then◌else◌, arith,
}
use nuno.Prelude.Text.{Text, Text_eq}
use nuno.Prelude.Dict.{lookup, write, lookup-write}
use nuno.Core.Registry.{Factory, Registry, register, register_given, register_new}

module _ {W : Type 0} where
  register_new-lookup :
      (typ : Text) (f : Factory W) (o : Option (Factory W)) (r s : Registry W)
      → register_new typ f o r ≡ ok s
      → (o ≡ none) × (s ≡ write typ f r)
  unfolding register_new
  register_new-lookup typ f none r s h = (refl, grind (arith, h))
  register_new-lookup typ f (some g) r s h = ground (arith, h)

  register_given-lookup :
      (typ : Text) (f : Factory W) (r s : Registry W)
      → register typ (some f) r ≡ ok s
      → (lookup typ r ≡ none) × (s ≡ write typ f r)
  unfolding register register_given
  register_given-lookup typ f r s h = elim (Bool-cases (is_empty typ)) [
    | inl e ↦ absurd (ground (arith, h, e))
    | inr n ↦ register_new-lookup typ f (lookup typ r) r s (sym (rw (n, register) refl) ∙ h)
  ]

  -- A registration that is accepted is of a type that had no factory; afterwards that type has the
  -- one given, and every other type the one that it had.
  pub lookup-register :
      (typ wanted : Text) (f : Factory W) (r s : Registry W)
      → register typ (some f) r ≡ ok s
      → (lookup typ r ≡ none)
        × (lookup wanted s ≡ (if typ == wanted then some f else lookup wanted r))
  lookup-register typ wanted f r s h =
      let (fresh, e) = register_given-lookup typ f r s h in
      (fresh, ap (lookup wanted) e ∙ lookup-write typ wanted f r)
