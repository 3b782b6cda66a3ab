-- ===== src/Prelude/Map.antt =====
-- `BTreeMap<String, V>`: an association list that an insertion keeps in the order of its keys.
use mathlib.Core.Path.{◌≡◌, refl}
use mathlib.Core.Option.{Option, none, some}
use mathlib.Core.List.{List, [], ◌∷◌}
use native.Mathlib.Omega.{arith}
use ai_sre.Prelude.Tests.{if◌then◌else◌}
use ai_sre.Prelude.Texts.{Text, same_text, same_text_iff, text_lt}

abbrev pub Map {ℓ} : Type ℓ → Type ℓ
Map V = List (Text × V)

module _ {ℓ} {V : Type ℓ} where
  unfoldable pub get : Map V → Text → Option V
  get [] k = none
  get ((j, v) ∷ m) k = if same_text j k then some v else get m k

  unfoldable pub insert : Map V → Text → V → Map V
  insert [] k v = (k, v) ∷ []
  insert ((j, w) ∷ m) k v =
      let rest = insert m k v in
      if same_text j k
      then (k, v) ∷ m
      else if text_lt k j
      then (k, v) ∷ (j, w) ∷ m
      else (j, w) ∷ rest

  pub get-insert :
      (m : Map V) (k : Text) (v : V) (j : Text)
      → get (insert m k v) j ≡ (if same_text k j then some v else get m j)
  unfolding get insert
  get-insert [] k v j = refl
  get-insert ((i, w) ∷ m) k v j =
      ground (arith, get-insert m k v j, same_text_iff k j, same_text_iff i k, same_text_iff i j)
