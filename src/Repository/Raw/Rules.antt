-- ===== src/Repository/Raw/Rules.antt =====
-- What holds of the outcome of an operation: one rule for each way to go on after a step.
use simperby.Base.{◌≡◌, refl, ◌∙◌, Bool, true, false, Option, none, some}
use simperby.Core.Result.{Result, ok, err, panic, map_err}
use simperby.Repository.Raw.Action.{Action, ◌>>=◌, pure, lift, reads, relabel, continue}

-- `Q` of the value and the state after a success, `X` of the state after an error or a panic.
abbrev pub Ends : {S E A : Type 0} → (A → S → Type 0) → (S → Type 0) → Result E A × S → Type 0
Ends Q X (ok a, s) = Q a s
Ends Q X (err _, s) = X s
Ends Q X (panic, s) = X s

pub Ends-any : {S E A : Type 0} (P : S → Type 0) (o : Result E A × S) → P o.1 → Ends (λ _. P) P o
Ends-any P (ok a, s) h = h
Ends-any P (err e, s) h = h
Ends-any P (panic, s) h = h

pub Ends-split :
    {S E A : Type 0} (Q : A → S → Type 0) (X : S → Type 0) (o : Result E A × S)
    → ((a : A) → o.0 ≡ ok a → Q a o.1)
    → X o.1
    → Ends Q X o
Ends-split Q X (ok a, s) good bad = good a refl
Ends-split Q X (err e, s) good bad = bad
Ends-split Q X (panic, s) good bad = bad

pub Ends-relabel :
    {S E F A : Type 0} (Q : A → S → Type 0) (X : S → Type 0) (f : E → F) (m : Action S E A) (s : S)
    → Ends Q X (m s)
    → Ends Q X (relabel f m s)
unfolding relabel
Ends-relabel {S} {E} {A = A} Q X f m s h = let (r, s') = m s in go r s' h
  where
    go : (r : Result E A) (s' : S) → Ends Q X (r, s') → Ends Q X (map_err f r, s')
    go (ok a) s' h = h
    go (err e) s' h = h
    go panic s' h = h

module _ {S E A B : Type 0} (T : Result E B × S → Type 0) where
  after_result :
      (r : Result E A) (k : A → Action S E B) (s : S)
      → ((e : E) → T (err e, s))
      → T (panic, s)
      → ((a : A) → r ≡ ok a → T (k a s))
      → T (continue r k s)
  after_result (ok a) k s failing broken going = going a refl
  after_result (err e) k s failing broken going = failing e
  after_result panic k s failing broken going = broken

  -- After a read the state is the same, and the value is the one that was read.
  pub after_reads :
      (f : S → Result E A) (k : A → Action S E B) (s : S)
      → ((e : E) → T (err e, s))
      → T (panic, s)
      → ((a : A) → f s ≡ ok a → T (k a s))
      → T ((reads f >>= k) s)
  unfolding ◌>>=◌ reads
  after_reads f k s failing broken going = after_result (f s) k s failing broken going

  pub after_lift :
      (r : Result E A) (k : A → Action S E B) (s : S)
      → ((e : E) → T (err e, s))
      → T (panic, s)
      → ((a : A) → r ≡ ok a → T (k a s))
      → T ((lift r >>= k) s)
  unfolding ◌>>=◌ lift
  after_lift r k s failing broken going = after_result r k s failing broken going

  at_outcome :
      (P : A → S → Type 0) (X : S → Type 0) (r : Result E A) (s' : S) (k : A → Action S E B)
      → Ends P X (r, s')
      → ((e : E) → X s' → T (err e, s'))
      → (X s' → T (panic, s'))
      → ((a : A) → P a s' → T (k a s'))
      → T (continue r k s')
  at_outcome P X (ok a) s' k h failing broken going = going a h
  at_outcome P X (err e) s' k h failing broken going = failing e h
  at_outcome P X panic s' k h failing broken going = broken h

  -- After any other step what is known of its outcome.
  pub after_step :
      (P : A → S → Type 0) (X : S → Type 0) (m : Action S E A) (k : A → Action S E B) (s : S)
      → Ends P X (m s)
      → ((s' : S) (e : E) → X s' → T (err e, s'))
      → ((s' : S) → X s' → T (panic, s'))
      → ((a : A) (s' : S) → P a s' → T (k a s'))
      → T ((m >>= k) s)
  unfolding ◌>>=◌
  after_step P X m k s h failing broken going =
      let (r, s') = m s in at_outcome P X r s' k h (failing s') (broken s') (λ a. going a s')

module _ {S V : Type 0} (view : S → V) where
  -- The operation leaves what is seen of the state as it was, however it ends.
  pub record Frames {E A : Type 0} (m : Action S E A) : Type 0 where
    pub at : (s : S) → view (m s).1 ≡ view s

  pub Frames-pure : {E A : Type 0} (a : A) → Frames (pure {E = E} a)
  unfolding pure
  Frames-pure a = record { at = λ s. refl }

  pub Frames-reads : {E A : Type 0} (f : S → Result E A) → Frames (reads f)
  unfolding reads
  Frames-reads f = record { at = λ s. refl }

  pub Frames-lift : {E A : Type 0} (r : Result E A) → Frames (lift r)
  unfolding lift
  Frames-lift r = record { at = λ s. refl }

  pub Frames-relabel :
      {E F A : Type 0} (f : E → F) (m : Action S E A) → Frames m → Frames (relabel f m)
  unfolding relabel
  Frames-relabel f m k = record { at = λ s. k.at s }

  pub Frames-bind :
      {E A B : Type 0} (m : Action S E A) (f : A → Action S E B)
      → Frames m
      → ((a : A) → Frames (f a))
      → Frames (m >>= f)
  unfolding ◌>>=◌
  Frames-bind m f km kf = record { at = λ s. go (m s).0 (m s).1 s (km.at s) }
    where
      go : (r : Result _ _) (s' s : S) → view s' ≡ view s → view (continue r f s').1 ≡ view s
      go (ok a) s' s e = (kf a).at s' ∙ e
      go (err _) s' s e = e
      go panic s' s e = e

  pub Frames-bool :
      {E A : Type 0} (b : Bool) (m n : Action S E A)
      → Frames m
      → Frames n
      → Frames (elim b [ true ↦ m | false ↦ n ])
  Frames-bool true m n km kn = km
  Frames-bool false m n km kn = kn

  pub Frames-option :
      {E A B : Type 0} (o : Option B) (m : Action S E A) (n : B → Action S E A)
      → Frames m
      → ((b : B) → Frames (n b))
      → Frames (elim o [ none ↦ m | some b ↦ n b ])
  Frames-option none m n km kn = km
  Frames-option (some b) m n km kn = kn b
