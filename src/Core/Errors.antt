-- ===== src/Core/Errors.antt =====
-- internal/core/errors.go: what adapters return. An error is the chain that `errors.As` walks, the
-- outermost layer first; a layer that `fmt.Errorf` wraps round another is its text.
use nuno.Prelude.{Bool, true, false, Option, none, some, List, [], ◌∷◌}
use nuno.Prelude.Int.{ℤ}
use nuno.Prelude.Text.{Text}

pub data ErrorLayer : Type 0 where
  auth_error : Text → ℤ → Text → ErrorLayer
  unreachable_error : Text → ErrorLayer
  unsupported_error : Text → Text → Text → ErrorLayer
  throttled_error : Text → ℤ → ErrorLayer
  provider_error : Text → Text → ℤ → Text → ErrorLayer
  plain_error : Text → ErrorLayer

abbrev pub CallError : Type 0
CallError = List ErrorLayer

-- `IsAuth`
unfoldable pub is_auth : CallError → Bool
is_auth [] = false
is_auth (auth_error p s m ∷ rest) = true
is_auth (_ ∷ rest) = is_auth rest

-- `IsUnreachable`
unfoldable pub is_unreachable : CallError → Bool
is_unreachable [] = false
is_unreachable (unreachable_error p ∷ rest) = true
is_unreachable (_ ∷ rest) = is_unreachable rest

-- `IsUnsupported`
unfoldable pub is_unsupported : CallError → Bool
is_unsupported [] = false
is_unsupported (unsupported_error p f d ∷ rest) = true
is_unsupported (_ ∷ rest) = is_unsupported rest

-- `Throttled`: the delay of the first rate limit in the chain.
unfoldable pub throttled_by : CallError → Option ℤ
throttled_by [] = none
throttled_by (throttled_error p delay ∷ rest) = some delay
throttled_by (_ ∷ rest) = throttled_by rest
