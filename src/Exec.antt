-- ===== src/Exec.antt =====
-- Code that changes a state and may throw. What was written before a throw stays written.
use cpp_chat_server.Prelude.{Bool, true, false, Option, none, some}

-- The exceptions that leave a handler, by the place that throws them.
pub data Fault : Type 0 where
  -- std::logic_error of Session::getUserId
  user_id_not_set : Fault
  -- std::bad_optional_access of Session::getUsername
  bad_optional_access : Fault
  -- std::runtime_error of Crypto::generateSalt
  no_random_salt : Fault
  -- `->` on an empty std::optional, which is undefined behaviour
  empty_optional : Fault
  -- a soci_error that a repository throws again
  database_error : Fault

pub data Result {ℓ} (A : Type ℓ) : Type ℓ where
  ok : A → Result A
  err : Fault → Result A

abbrev pub Exec {ℓ} : Type ℓ → Type ℓ → Type ℓ
Exec S A = S → Result A × S

module _ {ℓ} {S A : Type ℓ} where
  abbrev pub pure : A → Exec S A
  pure a s = (ok a, s)

  abbrev pub throw : Fault → Exec S A
  throw e s = (err e, s)

  abbrev pub gets : (S → A) → Exec S A
  gets f s = (ok (f s), s)

  -- value(), or a throw
  abbrev pub value_or : Option A → Fault → Exec S A
  value_or none e = throw e
  value_or (some a) e = pure a

abbrev pub modify : {S : Type 0} → (S → S) → Exec S (Unit {0})
modify f s = (ok tt, f s)

module _ {ℓ} {S A B : Type ℓ} where
  abbrev pub continue : Result A → (A → Exec S B) → Exec S B
  continue (ok a) f s = f a s
  continue (err e) f s = (err e, s)

  infixl 5 ◌>>=◌ ◌>>◌
  abbrev pub ◌>>=◌ : Exec S A → (A → Exec S B) → Exec S B
  ◌>>=◌ m f s = let (r, s') = m s in continue r f s'

  abbrev pub ◌>>◌ : Exec S A → Exec S B → Exec S B
  ◌>>◌ m n s = let (r, s') = m s in continue r (λ _. n) s'

abbrev pub when : {S : Type 0} → Bool → Exec S (Unit {0}) → Exec S (Unit {0})
when true m s = m s
when false m s = (ok tt, s)
