-- ===== src/Core/Registry.antt =====
-- internal/core/registry.go, with the credentials of internal/core/secret.go: the adapters by type.
-- A run holds one registry at a time, so its lock is not modelled. A URL and a timeout are only
-- passed on.
pub mod Laws
mod Tests
use nuno.Prelude.{
  Bool, Option, none, some, List, [], ◌∷◌, map, Result, ok, err, is_empty, if◌then◌else◌,
}
use nuno.Prelude.Int.{ℤ}
use nuno.Prelude.Text.{Text, Text_eq, text_lt, codes}
use nuno.Prelude.Dict.{Dict, lookup, write}
use nuno.Prelude.Sort.{sort_by}
use nuno.Core.Model.{ProviderInstance}
use nuno.Core.Provider.{Provider}

-- `Secret`: only `Reveal` gives the value away.
pub record Secret : Type 0 where
  pub reveal : Text

-- Every rendering of a secret: `String`, `GoString`, `Format`, `MarshalJSON`, `LogValue`.
unfoldable pub render_secret : Secret → Text
render_secret s = codes "[redacted]"

-- `Secret.Empty`
unfoldable pub secret_empty : Secret → Bool
secret_empty s = is_empty s.reveal

pub record ProviderSettings : Type 0 where
  pub instance : ProviderInstance
  pub base_url : Text
  pub credentials : Dict Text Secret
  pub timeout : ℤ

set_secret : Option Secret → Option Secret
unfolding secret_empty
set_secret none = none
set_secret (some s) = if secret_empty s then none else some s

-- `ProviderSettings.Credential`: an empty value counts as absent.
unfoldable pub credential : ProviderSettings → Text → Option Secret
unfolding set_secret
credential s name = set_secret (lookup name s.credentials)

pub data RegistryError : Type 0 where
  empty_type : RegistryError
  nil_factory : Text → RegistryError
  already_registered : Text → RegistryError
  unknown_type : Text → List Text → RegistryError
  factory_failed : Text → Text → Text → RegistryError

abbrev pub Factory : Type 0 → Type 0
Factory W = ProviderSettings → Result Text (Provider W)

-- The factories by type; a new registry has none.
abbrev pub Registry : Type 0 → Type 0
Registry W = Dict Text (Factory W)

module _ {W : Type 0} where
  register_new :
      Text → Factory W → Option (Factory W) → Registry W → Result RegistryError (Registry W)
  register_new typ f none r = ok (write typ f r)
  register_new typ f (some _) r = err (already_registered typ)

  register_given : Text → Option (Factory W) → Registry W → Result RegistryError (Registry W)
  unfolding register_new
  register_given typ none r = err (nil_factory typ)
  register_given typ (some f) r = register_new typ f (lookup typ r) r

  -- `Registry.Register`
  unfoldable pub register :
      Text → Option (Factory W) → Registry W → Result RegistryError (Registry W)
  unfolding register_given
  register typ f r = if is_empty typ then err empty_type else register_given typ f r

  -- `Registry.Types`
  unfoldable pub types : Registry W → List Text
  types r = sort_by text_lt (map (λ entry. entry.0) r)

  named : ProviderSettings → Result Text (Provider W) → Result RegistryError (Provider W)
  named s (ok p) = ok p
  named s (err e) = err (factory_failed s.instance.name s.instance.type_name e)

  build_by : ProviderSettings → Registry W → Option (Factory W) → Result RegistryError (Provider W)
  unfolding named
  build_by s r none = err (unknown_type s.instance.type_name (types r))
  build_by s r (some f) = named s (f s)

  -- `Registry.Build`
  unfoldable pub build : ProviderSettings → Registry W → Result RegistryError (Provider W)
  unfolding build_by
  build s r = build_by s r (lookup s.instance.type_name r)
