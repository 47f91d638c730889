-- ===== src/Base/Entries.antt =====
-- What holds of every entry of a `BTreeMap`, as a sorted list.
use Prim.Native.Nat.{Ordering}
use mathlib.Core.Path.{◌≡◌, sym, subst}
use mathlib.Core.Logic.{◌⊎◌, inl, inr}
use mathlib.Core.Option.{some}
use mathlib.Core.List.{List, [], ◌∷◌}
use native.Mathlib.Omega.{arith}
use simperby.Base.Lists.{All}
use simperby.Base.Ordered.{map_get, map_insert}

module _ {A V : Type 0} (cmp : A → A → Ordering)
    (cmp_eq : (a b : A) → cmp a b ≡ Ordering.eq → a ≡ b) (P : A → V → Type 0) where
  abbrev pub AllEntries : List (A × V) → Type 0
  AllEntries m = All (λ e. P e.0 e.1) m

  cases_of :
      (x y : A) → (cmp x y ≡ Ordering.eq) ⊎ ((cmp x y ≡ Ordering.lt) ⊎ (cmp x y ≡ Ordering.gt))
  cases_of x y = ground arith

  pub map_get-AllEntries :
      (k : A) (v : V) (m : List (A × V)) → AllEntries m → map_get cmp k m ≡ some v → P k v
  unfolding map_get
  map_get-AllEntries k v [] all found = absurd (ground arith)
  map_get-AllEntries k v ((j, w) ∷ m) all found = elim (cases_of k j) [
    | inl same ↦
        let value : w ≡ v = ground arith in
        subst (P k) value (subst (λ x. P x w) (sym (cmp_eq k j same)) all.0)
    | inr (inl less) ↦ map_get-AllEntries k v m all.1 (ground arith)
    | inr (inr more) ↦ map_get-AllEntries k v m all.1 (ground arith)
  ]

  pub map_insert-AllEntries :
      (k : A) (v : V) (m : List (A × V)) → P k v → AllEntries m → AllEntries (map_insert cmp k v m)
  unfolding map_insert
  map_insert-AllEntries k v [] new all = (new, tt)
  map_insert-AllEntries k v ((j, w) ∷ m) new all = elim (cases_of k j) [
    | inl same ↦ rw (same, map_insert) (subst (λ x. P x v) (cmp_eq k j same) new, all.1)
    | inr (inl less) ↦ rw (less, map_insert) (new, all)
    | inr (inr more) ↦ rw (more, map_insert) (all.0, map_insert-AllEntries k v m new all.1)
  ]
