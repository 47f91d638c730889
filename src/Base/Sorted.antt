-- ===== src/Base/Sorted.antt =====
-- The lists behind `BTreeSet` stay in strictly ascending order, so they have no duplicates.
use simperby.Base.Lists.{All, In}
use simperby.Base.Ordered.{set_insert, set_insert-All}
use Prim.Native.Nat.{compare, Ordering}
use mathlib.Core.Path.{◌≡◌}
use mathlib.Core.Logic.{◌⊎◌, inl, inr}
use mathlib.Core.List.{List, [], ◌∷◌}
use native.Mathlib.Omega.{arith}

-- What a comparison must satisfy.
pub record IsOrder {A : Type 0} (cmp : A → A → Ordering) : Type 0 where
  pub same : (a : A) → cmp a a ≡ Ordering.eq
  pub eq : (a b : A) → cmp a b ≡ Ordering.eq → a ≡ b
  pub flip : (a b : A) → cmp a b ≡ Ordering.gt → cmp b a ≡ Ordering.lt
  pub trans : (a b c : A) → cmp a b ≡ Ordering.lt → cmp b c ≡ Ordering.lt → cmp a c ≡ Ordering.lt

pub compare-IsOrder : IsOrder compare
compare-IsOrder = record {
  same = λ a. ground arith;
  eq = λ a b h. ground arith;
  flip = λ a b h. ground arith;
  trans = λ a b c h k. ground arith;
}

module _ {A : Type 0} where
  -- No element occurs twice.
  abbrev pub IsNodup : List A → Type 0
  IsNodup [] = Unit
  IsNodup (x ∷ xs) = (¬ In x xs) × IsNodup xs

  pub All-In : (P : A → Type 0) (x : A) (xs : List A) → All P xs → In x xs → P x
  All-In P x [] h i = absurd i
  All-In P x (y ∷ ys) h (inl e) = rw e h.0
  All-In P x (y ∷ ys) h (inr i) = All-In P x ys h.1 i

  pub All-map : (P Q : A → Type 0) (f : (x : A) → P x → Q x) (xs : List A) → All P xs → All Q xs
  All-map P Q f [] h = tt
  All-map P Q f (x ∷ xs) h = (f x h.0, All-map P Q f xs h.1)

module _ {A : Type 0} (cmp : A → A → Ordering) (order : IsOrder cmp) where
  abbrev pub IsAscending : List A → Type 0
  IsAscending [] = Unit
  IsAscending (x ∷ xs) = All (λ y. cmp x y ≡ Ordering.lt) xs × IsAscending xs

  pub IsAscending-IsNodup : (xs : List A) → IsAscending xs → IsNodup xs
  IsAscending-IsNodup [] h = tt
  IsAscending-IsNodup (x ∷ xs) h = (
    λ i.
        let below = All-In (λ y. cmp x y ≡ Ordering.lt) x xs h.0 i in
        let level = order.same x in cc,
    IsAscending-IsNodup xs h.1,
  )

  cmp_cases :
      (x y : A) → (cmp x y ≡ Ordering.lt) ⊎ (cmp x y ≡ Ordering.eq) ⊎ (cmp x y ≡ Ordering.gt)
  cmp_cases x y = ground arith

  pub set_insert-IsAscending :
      (x : A) (ys : List A) → IsAscending ys → IsAscending (set_insert cmp x ys)
  unfolding set_insert
  set_insert-IsAscending x [] h = (tt, tt)
  set_insert-IsAscending x (y ∷ ys) h = elim (cmp_cases x y) [
    | inl less ↦
        rw (less, set_insert)
          (
            (
              less,
              All-map (λ z. cmp y z ≡ Ordering.lt) (λ z. cmp x z ≡ Ordering.lt)
                  (λ z. order.trans x y z less) ys h.0,
            ),
            h,
          )
    | inr (inl same) ↦ rw (same, set_insert) h
    | inr (inr more) ↦
        rw (more, set_insert)
          (
            set_insert-All cmp (λ z. cmp y z ≡ Ordering.lt) x ys (order.flip x y more) h.0,
            set_insert-IsAscending x ys h.1,
          )
  ]
