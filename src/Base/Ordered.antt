-- ===== src/Base/Ordered.antt =====
-- `BTreeSet` and `BTreeMap` as sorted lists, over a comparison that decides equality.
use mathlib.Core.Path.{◌≡◌, refl}
use mathlib.Core.Logic.{inl, inr}
use mathlib.Core.Bool.{Bool, true, false}
use mathlib.Core.Option.{Option, none, some}
use mathlib.Core.List.{List, [], ◌∷◌}
use native.Mathlib.Omega.{arith}
use Prim.Native.Nat.{ℕ, compare, Ordering}
use simperby.Base.Lists.{All, In}

-- `Ordering::then`.
abbrev pub then_cmp : Ordering → Ordering → Ordering
then_cmp Ordering.eq o = o
then_cmp o _ = o

-- The derived order of an option: `None` comes first.
abbrev pub compare_option : Option ℕ → Option ℕ → Ordering
compare_option none none = Ordering.eq
compare_option none (some _) = Ordering.lt
compare_option (some _) none = Ordering.gt
compare_option (some a) (some b) = compare a b

module _ {A : Type 0} (cmp : A → A → Ordering) where
  -- `BTreeSet::insert`: an element that is there already stays.
  unfoldable pub set_insert : A → List A → List A
  set_insert x [] = x ∷ []
  set_insert x (y ∷ ys) = elim (cmp x y) [
    | Ordering.lt ↦ x ∷ y ∷ ys
    | Ordering.eq ↦ y ∷ ys
    | Ordering.gt ↦ y ∷ set_insert x ys
  ]

  -- `BTreeSet::contains`.
  unfoldable pub set_contains : A → List A → Bool
  set_contains x [] = false
  set_contains x (y ∷ ys) = elim (cmp x y) [ Ordering.eq ↦ true | _ ↦ set_contains x ys ]

  module _ {V : Type 0} where
    -- `BTreeMap::get`.
    unfoldable pub map_get : A → List (A × V) → Option V
    map_get k [] = none
    map_get k ((j, v) ∷ m) = elim (cmp k j) [ Ordering.eq ↦ some v | _ ↦ map_get k m ]

    -- `BTreeMap::insert`: a value that is there already is replaced.
    unfoldable pub map_insert : A → V → List (A × V) → List (A × V)
    map_insert k v [] = (k, v) ∷ []
    map_insert k v ((j, w) ∷ m) = elim (cmp k j) [
      | Ordering.lt ↦ (k, v) ∷ (j, w) ∷ m
      | Ordering.eq ↦ (j, v) ∷ m
      | Ordering.gt ↦ (j, w) ∷ map_insert k v m
    ]

module _ {A : Type 0} (cmp : A → A → Ordering) where
  -- What holds of the new element and of the old ones holds of all.
  pub set_insert-All :
      (P : A → Type 0) (x : A) (ys : List A) → P x → All P ys → All P (set_insert cmp x ys)
  unfolding set_insert
  set_insert-All P x [] px h = (px, tt)
  set_insert-All P x (y ∷ ys) px h = ground (arith, set_insert-All P x ys px h.1)

  -- An old element stays in the set.
  pub In-set_insert : (x y : A) (ys : List A) → In y ys → In y (set_insert cmp x ys)
  unfolding set_insert
  In-set_insert x y [] i = absurd i
  In-set_insert x y (z ∷ ys) (inl e) = ground arith
  In-set_insert x y (z ∷ ys) (inr i) = ground (arith, In-set_insert x y ys i)

module _ {A : Type 0} (cmp : A → A → Ordering)
    (cmp_eq : (a b : A) → cmp a b ≡ Ordering.eq → a ≡ b) where
  -- The new element is in the set.
  pub In-set_insert_self : (x : A) (ys : List A) → In x (set_insert cmp x ys)
  unfolding set_insert
  In-set_insert_self x [] = inl refl
  In-set_insert_self x (y ∷ ys) = ground (arith, cmp_eq x y, In-set_insert_self x ys)

module _ {A : Type 0} (cmp : A → A → Ordering) (cmp_refl : (a : A) → cmp a a ≡ Ordering.eq)
    {V : Type 0} where
  -- What was put in is found.
  pub map_get-map_insert_self :
      (k : A) (v : V) (m : List (A × V)) → map_get cmp k (map_insert cmp k v m) ≡ some v
  unfolding map_get map_insert
  map_get-map_insert_self k v [] = rw (cmp_refl k)
  map_get-map_insert_self k v ((j, w) ∷ m) =
      ground (arith, cmp_refl k, map_get-map_insert_self k v m)
