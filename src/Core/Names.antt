-- ===== src/Core/Names.antt =====
-- The names that `verify_reserved_state` of core/src/verify.rs collects in sets, as lists.
use simperby.Base.{
  ◌≤◌, ◌≡◌, ◌≢◌, refl, sym, ◌∙◌, ap, subst, inl, inr, Bool, true, false, List, [], ◌∷◌, arith, all,
  length, In, Bool-cases,
}
use simperby.Base.Text.{str_eq, str_eq→eq, str_eq_self}
use simperby.Core.Types.{MemberName, Member}
use simperby.Core.Sequence.{has_name, names_of, candidates, distinct}

pub has_name-In : (names : List MemberName) (n : MemberName) → has_name names n ≡ true → In n names
has_name-In [] n h = absurd (ground arith)
has_name-In (m ∷ names) n h = elim (Bool-cases (str_eq m n)) [
  | inl same ↦ inl (sym (str_eq→eq m n same))
  | inr other ↦ inr (has_name-In names n (ground arith))
]

pub In-has_name : (names : List MemberName) (n : MemberName) → In n names → has_name names n ≡ true
In-has_name [] n i = absurd i
In-has_name (m ∷ names) n (inl e) =
    let same : str_eq m n ≡ true = ap (λ x. str_eq m x) e ∙ str_eq_self m in ground arith
In-has_name (m ∷ names) n (inr i) = let there = In-has_name names n i in ground arith

module _ {A : Type 0} (p : A → Bool) where
  pub all-In : (xs : List A) → all p xs ≡ true → (x : A) → In x xs → p x ≡ true
  all-In [] h x i = absurd i
  all-In (y ∷ xs) h x (inl e) = let here : p y ≡ true = ground arith in ap p e ∙ here
  all-In (y ∷ xs) h x (inr i) = all-In xs (ground arith) x i

  pub In-all : (xs : List A) → ((x : A) → In x xs → p x ≡ true) → all p xs ≡ true
  In-all [] h = refl
  In-all (y ∷ xs) h =
      let here = h y (inl refl) in let rest = In-all xs (λ x i. h x (inr i)) in ground arith

-- A name of the list is that of a member of it.
pub In-names_of :
    (members : List Member) (n : MemberName)
    → In n (names_of members)
    → (m : Member) × In m members × (m.name ≡ n)
In-names_of [] n i = absurd i
In-names_of (m ∷ members) n (inl e) = (m, inl refl, sym e)
In-names_of (m ∷ members) n (inr i) =
    let (k, at, named) = In-names_of members n i in (k, inr at, named)

pub names_of-In : (members : List Member) (m : Member) → In m members → In m.name (names_of members)
names_of-In [] m i = absurd i
names_of-In (k ∷ members) m (inl e) = inl (ap (λ (x : Member). x.name) e)
names_of-In (k ∷ members) m (inr i) = inr (names_of-In members m i)

-- A candidate is a member who is not expelled.
pub In-candidates :
    (members : List Member) (n : MemberName)
    → In n (candidates members)
    → (m : Member) × In m members × (m.name ≡ n) × (m.expelled ≡ false)
In-candidates [] n i = absurd i
In-candidates (m ∷ members) n i = elim (Bool-cases m.expelled) [
  | inl out ↦
      let (k, at, named, in_) = In-candidates members n (rw out at i) in (k, inr at, named, in_)
  | inr active ↦ elim (rw active at i) [
    | inl e ↦ (m, inl refl, sym e, active)
    | inr j ↦ let (k, at, named, in_) = In-candidates members n j in (k, inr at, named, in_)
  ]
]

pub candidates-In :
    (members : List Member) (m : Member)
    → In m members
    → m.expelled ≡ false
    → In m.name (candidates members)
candidates-In [] m i active = absurd i
candidates-In (k ∷ members) m (inl e) active =
    let active_k : k.expelled ≡ false = sym (ap (λ (x : Member). x.expelled) e) ∙ active in
    rw active_k (inl (ap (λ (x : Member). x.name) e))
candidates-In (k ∷ members) m (inr i) active = elim (Bool-cases k.expelled) [
  | inl out ↦ rw out (candidates-In members m i active)
  | inr in_ ↦ rw in_ (inr (candidates-In members m i active))
]

distinct-In : (names : List MemberName) (n : MemberName) → In n (distinct names) → In n names
unfolding distinct
distinct-In [] n i = i
distinct-In (m ∷ names) n i = elim (Bool-cases (has_name (distinct names) m)) [
  | inl again ↦ inr (distinct-In names n (rw (again, distinct) at i))
  | inr new ↦ elim (rw (new, distinct) at i) [ inl e ↦ inl e | inr j ↦ inr (distinct-In names n j) ]
]

In-distinct : (names : List MemberName) (n : MemberName) → In n names → In n (distinct names)
unfolding distinct
In-distinct [] n i = i
In-distinct (m ∷ names) n i = elim (Bool-cases (has_name (distinct names) m)) [
  | inl again ↦
      rw (again, distinct)
        (elim i [
          | inl e ↦
              subst (λ x. In x (distinct names)) (sym e) (has_name-In (distinct names) m again)
          | inr j ↦ In-distinct names n j
        ])
  | inr new ↦ rw (new, distinct) (elim i [ inl e ↦ inl e | inr j ↦ inr (In-distinct names n j) ])
]

-- The first name of the list does not come again.
abbrev StartsNew : List MemberName → Type 0
StartsNew [] = Unit
StartsNew (n ∷ names) = has_name names n ≡ false

distinct-StartsNew : (names : List MemberName) → StartsNew (distinct names)
unfolding distinct
distinct-StartsNew [] = tt
distinct-StartsNew (m ∷ names) = elim (Bool-cases (has_name (distinct names) m)) [
  | inl again ↦ rw (again, distinct) (distinct-StartsNew names)
  | inr new ↦ rw (new, distinct) new
]

-- Two different names of the list.
abbrev pub HasTwo : List MemberName → Type 0
HasTwo names = (a : MemberName) × (b : MemberName) × In a names × In b names × (a ≢ b)

first_two : (names : List MemberName) → StartsNew names → 2 ≤ length names → HasTwo names
first_two [] new many = absurd (omega arith)
first_two (a ∷ []) new many = absurd (omega arith)
first_two (a ∷ (b ∷ names)) new many = (a, b, inl refl, inr (inl refl), apart)
  where
    apart : a ≢ b
    apart e = let same : str_eq b a ≡ true = ap (λ x. str_eq b x) e ∙ str_eq_self b in ground arith

two_or_more : (names : List MemberName) → HasTwo names → 2 ≤ length names
two_or_more [] (a, b, i, j, apart) = absurd i
two_or_more (n ∷ []) (a, b, inl e, inl f, apart) = absurd (apart (e ∙ sym f))
two_or_more (n ∷ []) (a, b, inl e, inr j, apart) = absurd j
two_or_more (n ∷ []) (a, b, inr i, j, apart) = absurd i
two_or_more (n ∷ (m ∷ names)) two = omega arith

-- A list has two different names exactly if its set has at least two.
pub distinct_many_iff :
    (names : List MemberName)
    → (2 ≤ length (distinct names) → HasTwo names) × (HasTwo names → 2 ≤ length (distinct names))
distinct_many_iff names = (
  λ many.
      let (a, b, i, j, apart) = first_two (distinct names) (distinct-StartsNew names) many in
      (a, b, distinct-In names a i, distinct-In names b j, apart),
  λ (a, b, i, j, apart).
      two_or_more (distinct names) (a, b, In-distinct names a i, In-distinct names b j, apart),
)
