-- ===== src/Prelude/Dicts.antt =====
-- A `dict` with text keys, as an association list.
use mathlib.Core.Option.{Option, none, some}
use mathlib.Core.List.{List, [], ◌∷◌}
use api_portal.Prelude.Tests.{if◌then◌else◌}
use api_portal.Prelude.Strings.{Text, text_eq}

-- `d.get(k)`
unfoldable pub lookup {ℓ} : {V : Type ℓ} → Text → List (Text × V) → Option V
lookup k [] = none
lookup k ((j, v) ∷ d) = if text_eq j k then some v else lookup k d
