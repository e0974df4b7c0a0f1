-- ===== src/Data/Transactions.antt =====
-- The transactions of server/src/data, for any block of statements: when a block has committed, and what it
-- then answers.
pub mod Adds
pub mod Outcomes
use cpp_chat_server.Prelude.{
  ℤ, ℕ, suc, ◌+◌, ◌≡◌, ◌≢◌, refl, ◌∙◌, Bool, true, false, Option, none, some, List, [], ◌∷◌, arith,
  Bool-cases, inl, inr, if◌then◌else◌,
}
use cpp_chat_server.Domain.{User, Room, Message}
use cpp_chat_server.Data.Driver.{
  Driver, Outcome, Failure, and_then, otherwise, pure, lift, try_or, update, ◌>>◌, ◌>>=◌, value,
  raises, soci_error, no_data, connection_error, system_error, other_category, std_exception, Sql,
  Scope, Backend, with_connection, recover, give_back, pair_with, transaction, commit, close,
}
use cpp_chat_server.Data.UserTable.{add_user, stored_user, read_created_at, add_user_block}
use cpp_chat_server.Data.RoomTable.{add_room, add_room_block}
use cpp_chat_server.Data.MessageTable.{add_message, add_message_block}

-- Whether a method that adds an object answered true.
abbrev pub is_added : {U : Type 0} → Option (Bool × U) → Bool
is_added none = false
is_added (some (added, _)) = added

not_added :
    {U : Type 0} (e : Failure) (object : U)
    → is_added (pair_with (recover false (raises e)).0 object) ≡ false
unfolding recover pair_with
not_added (soci_error no_data) object = refl
not_added (soci_error connection_error) object = refl
not_added (soci_error system_error) object = refl
not_added (soci_error (other_category n)) object = refl
not_added std_exception object = refl

module _ {Db : Type 0} (driver : Driver Db) where
  -- What stands for a transaction that began at `begun`: it was kept by a commit that did not throw, or
  -- it was rolled back.
  abbrev pub IsSettled : Db → Bool → Db → Type 0
  IsSettled begun true db = (now : Db) × (driver.commit now ≡ (value tt, db))
  IsSettled begun false db = (now : Db) × (db ≡ driver.rollback begun now)

  -- A block that has committed answers true, and one that has not does not.
  IsHonest : {U : Type 0} → Outcome Bool × Scope Db U → Type 0
  IsHonest (r, sc) =
      (sc.committed ≡ true
        → (r ≡ value true) × ((now : Db) × (driver.commit now ≡ (value tt, sc.db))))
      × (sc.committed ≡ false → r ≢ value true)

  settle_result :
      {U : Type 0} (begun : Db) (r : Outcome Bool) (sc : Scope Db U) (object : U)
      → IsHonest (r, sc)
      → IsSettled begun
          (is_added (pair_with (recover false r).0 object))
          (close driver begun (r, sc)).1.db
  unfolding IsHonest close recover pair_with
  settle_result begun (value true) sc object h = elim (Bool-cases sc.committed) [
    | inl e ↦ rw e ((h.0 e).1)
    | inr e ↦ absurd (h.1 e refl)
  ]
  settle_result begun (value false) sc object h = elim (Bool-cases sc.committed) [
    | inl e ↦ cc ((h.0 e).0)
    | inr e ↦ rw e (sc.db, refl)
  ]
  settle_result begun (raises e) sc object h = elim (Bool-cases sc.committed) [
    | inl c ↦ cc ((h.0 c).0)
    | inr c ↦ rw (c, not_added e object) (sc.db, refl)
  ]

  db-give_back : (is_valid : Bool) (db : Db) (b : Backend Db) → (give_back is_valid db b).db ≡ db
  unfolding give_back
  db-give_back true db b = refl
  db-give_back false db b = refl

  settle :
      {U : Type 0} (object : U) (body : Sql Db U Bool) (b : Backend Db) (begun : Db)
      → driver.begin b.db ≡ (value tt, begun)
      → IsHonest (body (record { db = begun; committed = false; object = object }))
      → let after = with_connection false object (transaction driver body) b in
        IsSettled begun (is_added after.0) after.1.db
  unfolding with_connection transaction close lift ◌>>=◌ ◌>>◌
  settle object body b begun began h =
      let r = body (record { db = begun; committed = false; object = object }) in
      rw (began, db-give_back (recover false r.0).1 (close driver begun r).1.db b)
        (unfold close in settle_result begun r.0 r.1 (close driver begun r).1.object h)

  and_then-IsHonest :
      {A U : Type 0} (k : A → Sql Db U Bool) (x : Outcome A × Scope Db U)
      → x.1.committed ≡ false
      → ((a : A) (sc : Scope Db U) → sc.committed ≡ false → IsHonest (k a sc))
      → IsHonest (and_then k x)
  unfolding IsHonest
  and_then-IsHonest k (value a, sc) c h = h a sc c
  and_then-IsHonest k (raises e, sc) c h = (λ p. cc, λ p q. cc)

  try_or-IsHonest :
      {U : Type 0} (x : Outcome Bool × Scope Db U) → IsHonest x → IsHonest (otherwise false x)
  unfolding IsHonest
  try_or-IsHonest (value a, sc) h = h
  try_or-IsHonest (raises e, sc) h = (λ p. cc ((h.0 p).0), λ p q. cc)

  -- A block that is honest wherever it starts before the commit.
  pub record IsSafe {U : Type 0} (m : Sql Db U Bool) : Type 0 where
    from : (sc : Scope Db U) → sc.committed ≡ false → IsHonest (m sc)

  -- A block that does not commit.
  pub record IsQuiet {U A : Type 0} (m : Sql Db U A) : Type 0 where
    from : (sc : Scope Db U) → sc.committed ≡ false → (m sc).1.committed ≡ false

  pub then-IsSafe :
      {U A : Type 0} {m : Sql Db U A} {k : A → Sql Db U Bool}
      → IsQuiet m
      → ((a : A) → IsSafe (k a))
      → IsSafe (m >>= k)
  unfolding ◌>>=◌
  then-IsSafe {m} {k} q h = record {
    from = λ sc c. and_then-IsHonest k (m sc) (q.from sc c) (λ a. (h a).from);
  }

  pub also-IsSafe :
      {U A : Type 0} {m : Sql Db U A} {n : Sql Db U Bool} → IsQuiet m → IsSafe n → IsSafe (m >> n)
  unfolding ◌>>◌
  also-IsSafe {m} {n} q h = record {
    from = λ sc c. and_then-IsHonest (λ _. n) (m sc) (q.from sc c) (λ _. h.from);
  }

  pub try_or-IsSafe : {U : Type 0} {m : Sql Db U Bool} → IsSafe m → IsSafe (try_or false m)
  unfolding try_or
  try_or-IsSafe {m} h = record { from = λ sc c. try_or-IsHonest (m sc) (h.from sc c) }

  pub no_answer-IsSafe : {U : Type 0} → IsSafe {U = U} (pure false)
  unfolding IsHonest pure
  no_answer-IsSafe = record { from = λ sc c. (λ p. cc, λ p q. cc) }

  pub lift-IsQuiet : {U A : Type 0} (f : Db → Outcome A × Db) → IsQuiet (lift {U = U} f)
  unfolding lift
  lift-IsQuiet f = record { from = λ sc c. c }

  pub update-IsQuiet : {U : Type 0} (f : U → U) → IsQuiet (update {Db = Db} f)
  unfolding update
  update-IsQuiet f = record { from = λ sc c. c }

  commit_result :
      {U : Type 0} (sc : Scope Db U) (x : Outcome (Unit {0}) × Db)
      → driver.commit sc.db ≡ x
      → sc.committed ≡ false
      → IsHonest ((do commit driver; pure true) sc)
  unfolding IsHonest commit lift pure ◌>>◌
  commit_result sc (value _, db) e c = rw e (λ p. (refl, (sc.db, e)), λ p q. cc)
  commit_result sc (raises f, db) e c = rw e (λ p. cc, λ p q. cc)

  pub commit-IsSafe : {U : Type 0} → IsSafe {U = U} (do commit driver; pure true)
  commit-IsSafe = record { from = λ sc c. commit_result sc (driver.commit sc.db) refl c }

  pub pure-IsQuiet : {U A : Type 0} (a : A) → IsQuiet {U = U} (pure a)
  unfolding pure
  pure-IsQuiet a = record { from = λ sc c. c }

  and_then-committed :
      {A B U : Type 0} (k : A → Sql Db U B) (x : Outcome A × Scope Db U)
      → x.1.committed ≡ false
      → ((a : A) (sc : Scope Db U) → sc.committed ≡ false → (k a sc).1.committed ≡ false)
      → (and_then k x).1.committed ≡ false
  and_then-committed k (value a, sc) c h = h a sc c
  and_then-committed k (raises e, sc) c h = c

  pub then-IsQuiet :
      {U A B : Type 0} {m : Sql Db U A} {k : A → Sql Db U B}
      → IsQuiet m
      → ((a : A) → IsQuiet (k a))
      → IsQuiet (m >>= k)
  unfolding ◌>>=◌
  then-IsQuiet {m} {k} q h = record {
    from = λ sc c. and_then-committed k (m sc) (q.from sc c) (λ a. (h a).from);
  }

  pub also-IsQuiet :
      {U A B : Type 0} {m : Sql Db U A} {n : Sql Db U B} → IsQuiet m → IsQuiet n → IsQuiet (m >> n)
  unfolding ◌>>◌
  also-IsQuiet {m} {n} q h = record {
    from = λ sc c. and_then-committed (λ _. n) (m sc) (q.from sc c) (λ _. h.from);
  }

  otherwise-committed :
      {A U : Type 0} (a : A) (x : Outcome A × Scope Db U)
      → (otherwise a x).1.committed ≡ x.1.committed
  otherwise-committed a (value b, sc) = refl
  otherwise-committed a (raises e, sc) = refl

  pub try_or-IsQuiet : {A U : Type 0} {m : Sql Db U A} (a : A) → IsQuiet m → IsQuiet (try_or a m)
  unfolding try_or
  try_or-IsQuiet {m} a q = record { from = λ sc c. otherwise-committed a (m sc) ∙ q.from sc c }

  pub settle_safe :
      {U : Type 0} (object : U) (body : Sql Db U Bool) (b : Backend Db) (begun : Db)
      → IsSafe body
      → driver.begin b.db ≡ (value tt, begun)
      → let after = with_connection false object (transaction driver body) b in
        IsSettled begun (is_added after.0) after.1.db
  settle_safe object body b begun h began = settle object body b begun began (h.from _ refl)
