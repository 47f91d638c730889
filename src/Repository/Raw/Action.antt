-- ===== src/Repository/Raw/Action.antt =====
-- Operations that may fail and that change the repository: what was changed before an error stays.
use simperby.Base.{List, [], ◌∷◌}
use simperby.Core.Result.{Result, ok, err, panic, map_err, ◌>>=◌ as ◌>>?◌}

abbrev pub Action : Type 0 → Type 0 → Type 0 → Type 0
Action S E A = S → Result E A × S

abbrev pub continue : {S E A B : Type 0} → Result E A → (A → Action S E B) → Action S E B
continue (ok a) f s = f a s
continue (err e) f s = (err e, s)
continue panic f s = (panic, s)

infixl 5 ◌>>=◌ ◌>>◌
unfoldable pub ◌>>=◌ : {S E A B : Type 0} → Action S E A → (A → Action S E B) → Action S E B
◌>>=◌ m f s = let (r, s') = m s in continue r f s'

abbrev pub ◌>>◌ : {S E B : Type 0} → Action S E (Unit {0}) → Action S E B → Action S E B
m >> n = m >>= λ _. n

module _ {S E A : Type 0} where
  unfoldable pub pure : A → Action S E A
  pure a s = (ok a, s)

  unfoldable pub lift : Result E A → Action S E A
  lift r s = (r, s)

  -- An operation that only reads.
  unfoldable pub reads : (S → Result E A) → Action S E A
  reads f s = (f s, s)

-- `.map_err(f)?`.
unfoldable pub relabel : {S E F A : Type 0} → (E → F) → Action S E A → Action S F A
relabel f m s = let (r, s') = m s in (map_err f r, s')

-- A list of results as a result, up to the first that is none.
abbrev pub collect : {E A : Type 0} → List (Result E A) → Result E (List A)
collect [] = ok []
collect (r ∷ rs) = r >>? λ a. collect rs >>? λ more. ok (a ∷ more)
