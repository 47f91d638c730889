-- ===== src/Repository/Candidates/Exact.antt =====
-- Which commits the lists of repository/src/interpret/read.rs hold.
use Prim.Native.String.{String}
use text.Mathlib.Text.{starts_with}
use simperby.Base.{
  ◌≡◌, refl, sym, ◌∙◌, ap, subst, true, false, ◌↔◌, ◌⊎◌, ◌≢◌, inl, inr, Option, List, [], ◌∷◌, ◌++◌,
  ◌==◌, ==_iff, In, arith, Bool-cases,
}
use simperby.Base.Word.{add_u64}
use simperby.Core.Types.{BlockHeader, BlockHeight, Hash256, Commit}
use simperby.Core.Result.{ok, map_err, by_parts, map_err-eq-ok}
use simperby.Repository.Types.{Branch, CommitHash}
use simperby.Repository.Library.{Library}
use simperby.Repository.Git.{Git}
use simperby.Repository.Raw.Walk.{find_merge_base}
use simperby.Repository.Read.{
  not_found_is_broken, commits_error, read_commits, read_last_finalized_block_header,
}
use simperby.Repository.Candidates.{candidates_among, branch_candidates, branches_candidates}
use simperby.Repository.Candidates.Kept.{
  In_append, Holds, candidates_among-Holds, Holds-candidates_among,
}

module _ (lib : Library) (g : Git) (select : Commit → Option (BlockHeight × Hash256))
    (finalized : CommitHash) where
  -- The commit stands between the finalized block and the tip of one of the branches of the prefix, at
  -- the height after that of the finalized block.
  pub record IsCandidate (prefix : String) (branches : List (Branch × CommitHash)) (r : g.Repo)
      (hash : CommitHash) (digest : Hash256) : Type 0 where
    pub branch : Branch
    pub tip : CommitHash
    pub listed : In (branch, tip) branches
    pub named : starts_with branch prefix ≡ true
    pub rebased : find_merge_base g finalized tip r ≡ ok finalized
    pub commits : List (Commit × CommitHash)
    pub read : read_commits lib g finalized tip r ≡ ok commits
    pub last : BlockHeader
    pub is_last : read_last_finalized_block_header lib g r ≡ ok last
    pub holds : Holds select (add_u64 last.height 1) commits hash digest

  -- What one branch contributes.
  branch_candidates_iff :
      (tip : CommitHash) (r : g.Repo) (found : List (CommitHash × Hash256))
      → branch_candidates lib g select finalized tip r ≡ ok found
      → ((find_merge_base g finalized tip r ≢ ok finalized) × (found ≡ []))
        ⊎ ((commits : List (Commit × CommitHash)) × (last : BlockHeader) × (find_merge_base g
                finalized tip r
              ≡ ok finalized)
            × (read_commits lib g finalized tip r ≡ ok commits)
            × (read_last_finalized_block_header lib g r ≡ ok last)
            × (found ≡ candidates_among select (add_u64 last.height 1) commits))
  unfolding branch_candidates
  branch_candidates_iff tip r found h =
      by_parts (map_err not_found_is_broken (find_merge_base g finalized tip r)) _ h
        λ base merged h1. elim (Bool-cases (finalized == base)) [
          | inr other ↦ inl (λ e. elsewhere base (map_err-eq-ok _ _ merged) other e, ground arith)
          | inl same ↦
              by_parts (map_err commits_error (read_commits lib g finalized tip r)) _
                (rw same at h1)
                λ commits read h2.
                  by_parts (read_last_finalized_block_header lib g r) _ h2 λ last is_last h3. inr (
                    commits,
                    last,
                    map_err-eq-ok _ _ merged ∙ ap ok (sym ((==_iff finalized base).0 same)),
                    map_err-eq-ok _ _ read,
                    is_last,
                    ground arith,
                  )
        ]
    where
      elsewhere :
          (base : CommitHash)
          → find_merge_base g finalized tip r ≡ ok base
          → (finalized == base) ≡ false
          → find_merge_base g finalized tip r ≡ ok finalized
          → ⊥
      elsewhere base e other e' = ground arith

  widen :
      (prefix : String) (entry : Branch × CommitHash) (branches : List (Branch × CommitHash))
      (r : g.Repo) (hash : CommitHash) (digest : Hash256)
      → IsCandidate prefix branches r hash digest
      → IsCandidate prefix (entry ∷ branches) r hash digest
  widen prefix entry branches r hash digest k = record {
    branch = k.branch;
    tip = k.tip;
    listed = inr k.listed;
    named = k.named;
    rebased = k.rebased;
    commits = k.commits;
    read = k.read;
    last = k.last;
    is_last = k.is_last;
    holds = k.holds;
  }

  -- The same for one branch.
  abbrev IsCandidateOf : CommitHash → g.Repo → CommitHash → Hash256 → Type 0
  IsCandidateOf tip r hash digest =
      (commits : List (Commit × CommitHash)) × (last : BlockHeader) × (find_merge_base g finalized
          tip r
        ≡ ok finalized)
      × (read_commits lib g finalized tip r ≡ ok commits)
      × (read_last_finalized_block_header lib g r ≡ ok last)
      × Holds select (add_u64 last.height 1) commits hash digest

  branch_candidates-IsCandidateOf :
      (tip : CommitHash) (r : g.Repo) (found : List (CommitHash × Hash256)) (hash : CommitHash)
      (digest : Hash256)
      → branch_candidates lib g select finalized tip r ≡ ok found
      → In (hash, digest) found
      → IsCandidateOf tip r hash digest
  branch_candidates-IsCandidateOf tip r found hash digest h m =
      elim (branch_candidates_iff tip r found h) [
        | inl (_, none_found) ↦ absurd (subst (In (hash, digest)) none_found m)
        | inr (commits, last, merged, read, is_last, e) ↦ (
          commits,
          last,
          merged,
          read,
          is_last,
          candidates_among-Holds select (add_u64 last.height 1) commits hash digest
              (subst (In (hash, digest)) e m),
        )
      ]

  IsCandidateOf-branch_candidates :
      (tip : CommitHash) (r : g.Repo) (found : List (CommitHash × Hash256)) (hash : CommitHash)
      (digest : Hash256)
      → branch_candidates lib g select finalized tip r ≡ ok found
      → IsCandidateOf tip r hash digest
      → In (hash, digest) found
  IsCandidateOf-branch_candidates tip r found hash digest h
        (commits, last, merged, read, is_last, holds) =
      elim (branch_candidates_iff tip r found h) [
        | inl (elsewhere, _) ↦ absurd (elsewhere merged)
        | inr (commits', last', _, read', is_last', e) ↦
            let same_commits : commits ≡ commits' = ground arith in
            let same_last : last ≡ last' = ground arith in
            subst (In (hash, digest)) (sym e) (
              Holds-candidates_among select (add_u64 last'.height 1) commits' hash digest (
                subst
                  (λ (p : List (Commit × CommitHash) × BlockHeader).
                    Holds select (add_u64 p.1.height 1) p.0 hash digest)
                  (λ i. (same_commits i, same_last i)) holds))
      ]

  -- A candidate of a branch of a list stands at its first branch or later.
  narrow :
      (prefix : String) (branch : Branch) (tip : CommitHash) (more : List (Branch × CommitHash))
      (r : g.Repo) (hash : CommitHash) (digest : Hash256)
      → IsCandidate prefix ((branch, tip) ∷ more) r hash digest
      → ((starts_with branch prefix ≡ true) × IsCandidateOf tip r hash digest)
        ⊎ IsCandidate prefix more r hash digest
  narrow prefix branch tip more r hash digest k = elim k.listed [
    | inl e ↦ inl (
      ap (λ (p : Branch × CommitHash). starts_with p.0 prefix) (sym e) ∙ k.named,
      subst (λ (p : Branch × CommitHash). IsCandidateOf p.1 r hash digest) e
          (k.commits, k.last, k.rebased, k.read, k.is_last, k.holds),
    )
    | inr later ↦ inr record {
      branch = k.branch;
      tip = k.tip;
      listed = later;
      named = k.named;
      rebased = k.rebased;
      commits = k.commits;
      read = k.read;
      last = k.last;
      is_last = k.is_last;
      holds = k.holds;
    }
  ]

  first :
      (prefix : String) (branch : Branch) (tip : CommitHash) (more : List (Branch × CommitHash))
      (r : g.Repo) (hash : CommitHash) (digest : Hash256)
      → starts_with branch prefix ≡ true
      → IsCandidateOf tip r hash digest
      → IsCandidate prefix ((branch, tip) ∷ more) r hash digest
  first prefix branch tip more r hash digest named (commits, last, rebased, read, is_last, holds) =
      record {
        branch = branch;
        tip = tip;
        listed = inl refl;
        named = named;
        rebased = rebased;
        commits = commits;
        read = read;
        last = last;
        is_last = is_last;
        holds = holds;
      }

  pub branches_candidates_iff :
      (prefix : String) (branches : List (Branch × CommitHash)) (r : g.Repo)
      (found : List (CommitHash × Hash256)) (hash : CommitHash) (digest : Hash256)
      → branches_candidates lib g prefix select finalized branches r ≡ ok found
      → In (hash, digest) found ↔ IsCandidate prefix branches r hash digest
  unfolding branches_candidates
  branches_candidates_iff prefix [] r found hash digest h =
      let none_found : found ≡ [] = ground arith in
      (λ m. absurd (subst (In (hash, digest)) none_found m), λ k. absurd k.listed)
  branches_candidates_iff prefix ((branch, tip) ∷ more) r found hash digest h =
      elim (Bool-cases (starts_with branch prefix)) [
        | inr other ↦
            let rest =
              branches_candidates_iff prefix more r found hash digest
                (rw (other, branches_candidates) at h) in
            (
              λ m. widen prefix (branch, tip) more r hash digest (rest.0 m),
              λ k. elim (narrow prefix branch tip more r hash digest k) [
                | inl (named, _) ↦ absurd (ground arith)
                | inr later ↦ rest.1 later
              ],
            )
        | inl named ↦
            by_parts (branch_candidates lib g select finalized tip r) _
              (rw (named, branches_candidates) at h)
              λ here e h1.
                by_parts (branches_candidates lib g prefix select finalized more r) _ h1
                  λ later e' h2.
                    let rest = branches_candidates_iff prefix more r later hash digest e' in
                    let all : found ≡ here ++ later = ground arith in
                    let halves = In_append (hash, digest) here later in
                    (
                      λ m. elim (halves.0 (subst (In (hash, digest)) all m)) [
                        | inl l ↦
                            first prefix branch tip more r hash digest named
                              (branch_candidates-IsCandidateOf tip r here hash digest e l)
                        | inr l ↦ widen prefix (branch, tip) more r hash digest (rest.0 l)
                      ],
                      λ k. subst (In (hash, digest)) (sym all) (
                          halves.1 (elim (narrow prefix branch tip more r hash digest k) [
                            | inl (_, of) ↦
                                inl (IsCandidateOf-branch_candidates tip r here hash digest e of)
                            | inr l ↦ inr (rest.1 l)
                          ])),
                    )
      ]
