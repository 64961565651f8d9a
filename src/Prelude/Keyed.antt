-- ===== src/Prelude/Keyed.antt =====
-- Python dicts with string keys, in insertion order.
use Prim.Native.String.{String}
use text.Mathlib.Text.{◌==◌ as str_eq}
use text.Mathlib.TextEquality.{eq_iff}
use mathlib.Core.Path.{◌≡◌}
use mathlib.Core.Bool.{Bool, true, false}
use mathlib.Core.Option.{Option, none, some}
use mathlib.Core.List.{List, [], ◌∷◌, ◌++◌}
use native.Mathlib.Omega.{arith}
use nautobot_maps.Prelude.Tests.{if◌then◌else◌}

abbrev pub Dict {ℓ} : Type ℓ → Type ℓ
Dict V = List (String × V)

module _ {ℓ} {V : Type ℓ} where
  -- `d.get(k)`
  abbrev pub lookup : String → Dict V → Option V
  lookup k [] = none
  lookup k ((j, v) ∷ d) = if str_eq k j then some v else lookup k d

  -- `d[k] = v`
  abbrev pub insert : String → V → Dict V → Dict V
  insert k v [] = (k, v) ∷ []
  insert k v (e ∷ d) = if str_eq k e.0 then (k, v) ∷ d else e ∷ insert k v d

  -- `k in d`
  abbrev pub contains : String → Dict V → Bool
  contains k d = elim (lookup k d) [ none ↦ false | some _ ↦ true ]

  pub lookup-insert :
      (k j : String) (v : V) (d : Dict V)
      → lookup j (insert k v d) ≡ (if str_eq j k then some v else lookup j d)
  lookup-insert k j v [] = ground arith
  lookup-insert k j v (e ∷ d) =
      ground (arith, eq_iff k e.0, eq_iff j k, eq_iff j e.0, lookup-insert k j v d)

module _ {ℓ} {A : Type ℓ} where
  -- `d.get(k, [])`
  abbrev pub get_list : String → Dict (List A) → List A
  get_list k [] = []
  get_list k ((j, v) ∷ d) = if str_eq k j then v else get_list k d

  -- `d.setdefault(k, []).append(v)`
  abbrev pub append_to : String → A → Dict (List A) → Dict (List A)
  append_to k v [] = (k, v ∷ []) ∷ []
  append_to k v (e ∷ d) = if str_eq k e.0 then (e.0, e.1 ++ v ∷ []) ∷ d else e ∷ append_to k v d

  pub get_list-append_to :
      (k j : String) (v : A) (d : Dict (List A))
      → get_list j (append_to k v d) ≡ (if str_eq j k then get_list j d ++ v ∷ [] else get_list j d)
  get_list-append_to k j v [] = ground arith
  get_list-append_to k j v (e ∷ d) =
      ground (arith, eq_iff k e.0, eq_iff j k, eq_iff j e.0, get_list-append_to k j v d)
