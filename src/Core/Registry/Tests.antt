-- ===== src/Core/Registry/Tests.antt =====
-- Two registrations, and the law there.
use nuno.Prelude.{◌≡◌, refl, ◌==◌, none, some, [], ◌∷◌, err, if◌then◌else◌}
use nuno.Prelude.Text.{codes, Text_eq, text_eq}
use nuno.Prelude.Dict.{lookup, write}
use nuno.Core.Registry.{Factory, Registry, register}
use nuno.Core.Registry.Laws.{lookup-register}

abbrev missing : Factory (Unit {0})
missing s = err (codes "no server")

abbrev before : Registry (Unit {0})
before = (codes "immich", missing) ∷ []

lookup-register_example :
    (lookup (codes "nextcloud") before ≡ none)
    × (lookup (codes "immich") (write (codes "nextcloud") missing before) ≡ (
        if codes "nextcloud" == codes "immich"
        then some missing
        else lookup (codes "immich") before))
unfolding register lookup text_eq
lookup-register_example =
    lookup-register (codes "nextcloud") (codes "immich") missing before
      (write (codes "nextcloud") missing before) refl
