-- ===== src/Core/Result.antt =====
-- Results of the chain's operations. The text of an error is its reason here; a panic of the source
-- is a result of its own.
use simperby.Base.{Bool, true, false, ◌≡◌, refl, arith}

-- The reasons of core/src/reserved.rs.
pub data Reason : Type 0 where
  key_not_found delegator_expelled delegator_not_found same_member wrong_key delegatee_expelled
        delegatee_not_found bad_signature already_set not_set :
      Reason

-- `Error` of core/src/verify.rs, with the check that failed.
pub data Error : Type 0 where
  invalid_height invalid_previous_hash invalid_author invalid_timestamp : Error
  invalid_proof crypto_error phase_mismatch : Error
  too_few_members invalid_leader too_few_leaders genesis_changed duplicate_name duplicate_key
        member_removed :
      Error
  invalid_merkle_root invalid_transactions_hash invalid_agenda_hash : Error
  invalid_signer insufficient_weight : Error
  invalid_delegation invalid_undelegation : Reason → Error

pub data Result (E A : Type 0) : Type 0 where
  ok : A → Result E A
  err : E → Result E A
  panic : Result E A

infixl 5 ◌>>=◌ ◌>>◌
abbrev pub ◌>>=◌ : {E A B : Type 0} → Result E A → (A → Result E B) → Result E B
ok a >>= f = f a
err e >>= f = err e
panic >>= f = panic

abbrev pub ◌>>◌ : {E B : Type 0} → Result E (Unit {0}) → Result E B → Result E B
m >> k = m >>= λ _. k

-- `if condition { return Err(e) }`.
abbrev pub fail_if : {E : Type 0} → Bool → E → Result E (Unit {0})
fail_if true e = err e
fail_if false e = ok tt

-- `map_err`.
abbrev pub map_err : {E F A : Type 0} → (E → F) → Result E A → Result F A
map_err f (ok a) = ok a
map_err f (err e) = err (f e)
map_err f panic = panic

-- A chain that succeeds does so by both of its parts, to go on with.
pub by_parts :
    {P : Type 0} {E A B : Type 0} (first : Result E A) (next : A → Result E B) {last : B}
    → (first >>= next) ≡ ok last
    → ((value : A) → first ≡ ok value → next value ≡ ok last → P)
    → P
by_parts panic next h go = absurd (ground arith)
by_parts (err reason) next h go = absurd (ground arith)
by_parts (ok value) next h go = go value refl h

-- The same as a tuple.
pub ok_parts :
    {E A B : Type 0} (first : Result E A) (next : A → Result E B) {last : B}
    → (first >>= next) ≡ ok last
    → (value : A) × (first ≡ ok value) × (next value ≡ ok last)
ok_parts first next h = by_parts first next h λ value here there. (value, here, there)

pub fail_if-eq-ok : {E : Type 0} (b : Bool) (e : E) {u : Unit {0}} → fail_if b e ≡ ok u → b ≡ false
fail_if-eq-ok true e h = absurd (ground arith)
fail_if-eq-ok false e h = refl

pub map_err-eq-ok :
    {E F A : Type 0} (f : E → F) (m : Result E A) {a : A} → map_err f m ≡ ok a → m ≡ ok a
map_err-eq-ok f (ok a) h = ground arith
map_err-eq-ok f (err e) h = absurd (ground arith)
map_err-eq-ok f panic h = absurd (ground arith)
