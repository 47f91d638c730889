-- ===== src/Repository/Candidates/Kept.antt =====
-- The commits of one branch that repository/src/interpret/read.rs keeps: those of the kind and the height.
use simperby.Base.{
  ◌≡◌, sym, ◌∙◌, ap, subst, ◌↔◌, ◌⊎◌, inl, inr, Option, some, List, [], ◌∷◌, ◌++◌, ◌==◌, ==_iff, In,
  arith, Bool-cases, Option-cases,
}
use simperby.Core.Types.{BlockHeight, Hash256, Commit}
use simperby.Repository.Types.{CommitHash}
use simperby.Repository.Candidates.{candidate, candidates_among}

pub In_append : {A : Type 0} (a : A) (xs ys : List A) → In a (xs ++ ys) ↔ (In a xs ⊎ In a ys)
In_append a [] ys = (λ h. inr h, λ h. elim h [ inl x ↦ absurd x | inr y ↦ y ])
In_append a (x ∷ xs) ys = (
  λ h. elim h [
    | inl e ↦ inl (inl e)
    | inr m ↦ elim ((In_append a xs ys).0 m) [ inl l ↦ inl (inr l) | inr r ↦ inr r ]
  ],
  λ h. elim h [
    | inl (inl e) ↦ inl e
    | inl (inr m) ↦ inr ((In_append a xs ys).1 (inl m))
    | inr m ↦ inr ((In_append a xs ys).1 (inr m))
  ],
)

module _ (select : Commit → Option (BlockHeight × Hash256)) where
  -- A commit of the height, by its hash, with its digest.
  abbrev pub Holds : BlockHeight → List (Commit × CommitHash) → CommitHash → Hash256 → Type 0
  Holds next commits hash digest =
      (commit : Commit) × In (commit, hash) commits × (select commit ≡ some (next, digest))

  candidate_inv :
      (next : BlockHeight) (commit : Commit) (h hash : CommitHash) (digest : Hash256)
      → In (hash, digest) (candidate select next (commit, h))
      → (hash ≡ h) × (select commit ≡ some (next, digest))
  candidate_inv next commit h hash digest m = elim (Option-cases (select commit)) [
    | inl absent ↦ empty (ground arith)
    | inr ((height, d), is) ↦ elim (Bool-cases (height == next)) [
      | inr other ↦ empty (ground arith)
      | inl same ↦
          let eq : candidate select next (commit, h) ≡ (h, d) ∷ [] = ground arith in
          only (subst (In (hash, digest)) eq m) is ((==_iff height next).0 same)
    ]
  ]
    where
      empty :
          candidate select next (commit, h) ≡ []
          → (hash ≡ h) × (select commit ≡ some (next, digest))
      empty e = absurd (subst (In (hash, digest)) e m)

      only :
          {height : BlockHeight} {d : Hash256}
          → (◌≡◌ {A = CommitHash × Hash256} (hash, digest) (h, d)) ⊎ ⊥
          → select commit ≡ some (height, d)
          → height ≡ next
          → (hash ≡ h) × (select commit ≡ some (next, digest))
      only (inl e) is same = (ground arith, ground arith)
      only (inr x) is same = absurd x

  candidate_eq :
      (next : BlockHeight) (commit : Commit) (h : CommitHash) (digest : Hash256)
      → select commit ≡ some (next, digest)
      → candidate select next (commit, h) ≡ (h, digest) ∷ []
  candidate_eq next commit h digest is = ground arith

  candidate_intro :
      (next : BlockHeight) (commit : Commit) (h hash : CommitHash) (digest : Hash256)
      → hash ≡ h
      → select commit ≡ some (next, digest)
      → In (hash, digest) (candidate select next (commit, h))
  candidate_intro next commit h hash digest same is =
      subst (In (hash, digest)) (sym (candidate_eq next commit h digest is))
        (inl (ap (λ x. (x, digest)) same))

  pub candidates_among-Holds :
      (next : BlockHeight) (commits : List (Commit × CommitHash)) (hash : CommitHash)
      (digest : Hash256)
      → In (hash, digest) (candidates_among select next commits)
      → Holds next commits hash digest
  unfolding candidates_among
  candidates_among-Holds next [] hash digest m = absurd m
  candidates_among-Holds next ((commit, h) ∷ more) hash digest m =
      elim ((In_append (hash, digest) (candidate select next (commit, h))
          (candidates_among select next more)).0
        m) [
          | inr later ↦
              let (found, there, is) = candidates_among-Holds next more hash digest later in
              (found, inr there, is)
          | inl here ↦
              let (same, is) = candidate_inv next commit h hash digest here in
              (commit, inl (ap (λ x. (commit, x)) same), is)
        ]

  pub Holds-candidates_among :
      (next : BlockHeight) (commits : List (Commit × CommitHash)) (hash : CommitHash)
      (digest : Hash256)
      → Holds next commits hash digest
      → In (hash, digest) (candidates_among select next commits)
  unfolding candidates_among
  Holds-candidates_among next [] hash digest (commit, m, is) = absurd m
  Holds-candidates_among next ((commit, h) ∷ more) hash digest (found, inl e, is) =
      (In_append (hash, digest) (candidate select next (commit, h))
          (candidates_among select next more)).1
        (inl (
          candidate_intro next commit h hash digest (ap (λ (p : Commit × CommitHash). p.1) e)
            (ap (λ (p : Commit × CommitHash). select p.0) (sym e) ∙ is)))
  Holds-candidates_among next ((commit, h) ∷ more) hash digest (found, inr m, is) =
      (In_append (hash, digest) (candidate select next (commit, h))
          (candidates_among select next more)).1
        (inr (Holds-candidates_among next more hash digest (found, m, is)))
