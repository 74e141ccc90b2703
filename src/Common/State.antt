-- ===== src/Common/State.antt =====
-- Code that changes a state and may throw. What was written before a throw stays written.
use mathlib.Core.Bool.{Bool, true, false}
use package.pandanite_node.Common.Tests.{if◌then◌else◌}

-- The std::runtime_error texts that the modelled code throws.
pub data Exception : Type 0 where
  wallet_exists missing_wallet insufficient_balance balance_underflow balance_overflow : Exception
  missing_account invalid_block unreadable undefined_read invalid_data no_genesis : Exception
  undefined_write invalid_text type_error : Exception

pub data Result {ℓ} (A : Type ℓ) : Type ℓ where
  ok : A → Result A
  throws : Exception → Result A

abbrev pub Action : Type 0 → Type 0 → Type 0
Action S A = S → Result A × S

-- What a call leads to in a thread: it returns or throws, the process exits, or the thread waits without
-- end for a mutex that it holds itself (std::mutex cannot be locked again).
pub data Outcome (S A : Type 0) : Type 0 where
  returns : Result A → S → Outcome S A
  exits waits : Outcome S A

module _ {S : Type 0} where
  abbrev pub pure : {A : Type 0} → A → Action S A
  pure a s = (ok a, s)

  abbrev pub throw : {A : Type 0} → Exception → Action S A
  throw e s = (throws e, s)

  abbrev pub gets : {A : Type 0} → (S → A) → Action S A
  gets f s = (ok (f s), s)

  abbrev pub modify : (S → S) → Action S (Unit {0})
  modify f s = (ok tt, f s)

  -- The rest of the code, run on what the first part returned.
  abbrev pub resume : {A B : Type 0} → (A → Action S B) → Result A → S → Result B × S
  resume f (ok a) s = f a s
  resume f (throws e) s = (throws e, s)

  infixl 5 ◌>>=◌ ◌>>◌
  abbrev pub ◌>>=◌ : {A B : Type 0} → Action S A → (A → Action S B) → Action S B
  ◌>>=◌ m f s = let (r, s') = m s in resume f r s'

  abbrev pub ◌>>◌ : {B : Type 0} → Action S (Unit {0}) → Action S B → Action S B
  m >> k = m >>= λ _. k

  abbrev pub throw_if : Bool → Exception → Action S (Unit {0})
  throw_if true e = throw e
  throw_if false e = pure tt

  -- `P` holds after the call if it held before, also when the call throws.
  abbrev pub Keeps : {A : Type 0} → (S → Type 0) → Action S A → Type 0
  Keeps P m = (s : S) → P s → P (m s).1

  resume-Keeps :
      {A B : Type 0} (P : S → Type 0) (f : A → Action S B)
      → ((a : A) → Keeps P (f a))
      → (r : Result A) (s : S) → P s
      → P (resume f r s).1
  resume-Keeps P f hf (ok a) s p = hf a s p
  resume-Keeps P f hf (throws e) s p = p

  pub Keeps-bind :
      {A B : Type 0} (P : S → Type 0) (m : Action S A) (f : A → Action S B)
      → Keeps P m
      → ((a : A) → Keeps P (f a))
      → Keeps P (m >>= f)
  Keeps-bind P m f hm hf s p = resume-Keeps P f hf (m s).0 (m s).1 (hm s p)

  -- What holds of the value and the state if the call returns.
  abbrev pub Returns : {A : Type 0} → (A → S → Type 0) → Result A → S → Type 0
  Returns Q (ok a) s = Q a s
  Returns Q (throws e) s = Unit

  -- From a state with `P` the call throws, or returns with `Q`.
  abbrev pub Ensures : {A : Type 0} → (S → Type 0) → Action S A → (A → S → Type 0) → Type 0
  Ensures P m Q = (s : S) → P s → Returns Q (m s).0 (m s).1

  resume-Returns :
      {A B : Type 0} (R : A → S → Type 0) (Q : B → S → Type 0) (f : A → Action S B)
      → ((a : A) → Ensures (R a) (f a) Q)
      → (r : Result A) (s : S) → Returns R r s
      → Returns Q (resume f r s).0 (resume f r s).1
  resume-Returns R Q f hf (ok a) s h = hf a s h
  resume-Returns R Q f hf (throws e) s h = tt

  pub Ensures-bind :
      {A B : Type 0} (P : S → Type 0) (R : A → S → Type 0) (Q : B → S → Type 0) (m : Action S A)
      (f : A → Action S B)
      → Ensures P m R
      → ((a : A) → Ensures (R a) (f a) Q)
      → Ensures P (m >>= f) Q
  Ensures-bind P R Q m f hm hf s p = resume-Returns R Q f hf (m s).0 (m s).1 (hm s p)

  -- The call leads from `P` to `Q`, also when it throws.
  abbrev pub Leads : {A : Type 0} → (S → Type 0) → Action S A → (S → Type 0) → Type 0
  Leads P m Q = (s : S) → P s → Q (m s).1

  resume-Leads :
      {A B : Type 0} (R Q : S → Type 0) (f : A → Action S B)
      → ((a : A) → Leads R (f a) Q)
      → ((s : S) → R s → Q s)
      → (r : Result A) (s : S) → R s
      → Q (resume f r s).1
  resume-Leads R Q f hf weaken (ok a) s p = hf a s p
  resume-Leads R Q f hf weaken (throws e) s p = weaken s p

  pub Leads-bind :
      {A B : Type 0} (P R Q : S → Type 0) (m : Action S A) (f : A → Action S B)
      → Leads P m R
      → ((a : A) → Leads R (f a) Q)
      → ((s : S) → R s → Q s)
      → Leads P (m >>= f) Q
  Leads-bind P R Q m f hm hf weaken s p = resume-Leads R Q f hf weaken (m s).0 (m s).1 (hm s p)

  -- Calls that may also exit or wait.
  abbrev pub run : {A : Type 0} → Action S A → S → Outcome S A
  run m s = let (r, s') = m s in returns r s'

  abbrev pub after : {A B : Type 0} → (A → S → Outcome S B) → Outcome S A → Outcome S B
  after f (returns (ok a) s) = f a s
  after f (returns (throws e) s) = returns (throws e) s
  after f exits = exits
  after f waits = waits

  -- A call under std::unique_lock, for a thread that holds the mutex or not.
  abbrev pub under_lock : {A : Type 0} → Bool → (S → Outcome S A) → S → Outcome S A
  under_lock true m s = waits
  under_lock false m s = m s

  -- What holds of the state in which a call returns or throws.
  abbrev pub EndsIn : {A : Type 0} → (S → Type 0) → Outcome S A → Type 0
  EndsIn P (returns r s) = P s
  EndsIn P exits = Unit
  EndsIn P waits = Unit

  pub EndsIn-after :
      {A B : Type 0} (P Q : S → Type 0) (f : A → S → Outcome S B)
      → ((s : S) → P s → Q s)
      → ((a : A) (s : S) → P s → EndsIn Q (f a s))
      → (o : Outcome S A) → EndsIn P o
      → EndsIn Q (after f o)
  EndsIn-after P Q f weaken hf (returns (ok a) s) h = hf a s h
  EndsIn-after P Q f weaken hf (returns (throws e) s) h = weaken s h
  EndsIn-after P Q f weaken hf exits h = tt
  EndsIn-after P Q f weaken hf waits h = tt

  pub EndsIn-if :
      {A : Type 0} (P : S → Type 0) (test : Bool) (a b : Outcome S A)
      → EndsIn P a
      → EndsIn P b
      → EndsIn P (if test then a else b)
  EndsIn-if P true a b ha hb = ha
  EndsIn-if P false a b ha hb = hb

  -- The call returns or throws, in a state with `P`.
  abbrev pub Settles : {A : Type 0} → (S → Type 0) → Outcome S A → Type 0
  Settles P (returns r s) = P s
  Settles P exits = ⊥
  Settles P waits = ⊥

  pub Settles-after :
      {A B : Type 0} (P Q : S → Type 0) (f : A → S → Outcome S B)
      → ((s : S) → P s → Q s)
      → ((a : A) (s : S) → P s → Settles Q (f a s))
      → (o : Outcome S A) → Settles P o
      → Settles Q (after f o)
  Settles-after P Q f weaken hf (returns (ok a) s) h = hf a s h
  Settles-after P Q f weaken hf (returns (throws e) s) h = weaken s h
  Settles-after P Q f weaken hf exits h = absurd h
  Settles-after P Q f weaken hf waits h = absurd h
