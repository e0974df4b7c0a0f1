-- ===== src/Data/Driver/Inversion.antt =====
-- The blocks of server/src/data/MySQL*Repository.cpp read backwards: what a block has done that ended with
-- a value.
use cpp_chat_server.Prelude.{
  ◌≡◌, refl, sym, ap, ◌∙◌, Bool, true, false, arith, Option, none, some, if◌then◌else◌,
}
use cpp_chat_server.Data.Driver.{
  Driver, Outcome, value, raises, soci_error, no_data, connection_error, system_error,
  other_category, std_exception, Sql, Scope, Backend, pure, lift, try_or, update, and_then,
  otherwise, ◌>>=◌, ◌>>◌, answer_of, with_connection, with_connection_only, recover, give_back,
  pair_with, transaction, commit, close,
}

answer_of-true : (o : Option (Bool × Unit {0})) → answer_of o ≡ some true → o ≡ some (true, tt)
unfolding answer_of
answer_of-true none h = cc
answer_of-true (some (a, u)) h = cc

module _ {Db : Type 0} where
  module _ {A : Type 0} {a a' : A} {db db' : Db} where
    pub of_value : ◌≡◌ {A = Outcome A × Db} (value a, db) (value a', db') → a ≡ a'
    of_value e = cc

    pub of_db : ◌≡◌ {A = Outcome A × Db} (value a, db) (value a', db') → db ≡ db'
    of_db e = cc

  module _ {U A B : Type 0} where
    and_then-value :
        (k : A → Sql Db U B) (x : Outcome A × Scope Db U) (b : B) (sc : Scope Db U)
        → and_then k x ≡ (value b, sc)
        → (a : A) × (s : Scope Db U) × (x ≡ (value a, s)) × (k a s ≡ (value b, sc))
    and_then-value k (value a, s) b sc h = (a, s, refl, h)
    and_then-value k (raises e, s) b sc h = cc

    pub bind-value :
        (m : Sql Db U A) (k : A → Sql Db U B) (start : Scope Db U) (b : B) (sc : Scope Db U)
        → (m >>= k) start ≡ (value b, sc)
        → (a : A) × (s : Scope Db U) × (m start ≡ (value a, s)) × (k a s ≡ (value b, sc))
    unfolding ◌>>=◌
    bind-value m k start b sc h = and_then-value k (m start) b sc h

    pub then-value :
        (m : Sql Db U A) (n : Sql Db U B) (start : Scope Db U) (b : B) (sc : Scope Db U)
        → (m >> n) start ≡ (value b, sc)
        → (a : A) × (s : Scope Db U) × (m start ≡ (value a, s)) × (n s ≡ (value b, sc))
    unfolding ◌>>◌
    then-value m n start b sc h = and_then-value (λ _. n) (m start) b sc h

  module _ {U A : Type 0} where
    lifted-value :
        (x : Outcome A × Db) (start : Scope Db U) (a : A) (sc : Scope Db U)
        → ◌≡◌ {A = Outcome A × Scope Db U} (x.0, record start { db = x.1 }) (value a, sc)
        → (x ≡ (value a, sc.db)) × (sc.object ≡ start.object) × (sc.committed ≡ start.committed)
    lifted-value (r, db) start a sc h = (cc, cc, cc)

    pub lift-value :
        (f : Db → Outcome A × Db) (start : Scope Db U) (a : A) (sc : Scope Db U)
        → lift f start ≡ (value a, sc)
        → (f start.db ≡ (value a, sc.db))
          × (sc.object ≡ start.object)
          × (sc.committed ≡ start.committed)
    unfolding lift
    lift-value f start a sc h = lifted-value (f start.db) start a sc h

  module _ {U : Type 0} where
    pub update-value :
        (f : U → U) (start : Scope Db U) (a : Unit {0}) (sc : Scope Db U)
        → update f start ≡ (value a, sc)
        → sc ≡ record start { object = f start.object }
    unfolding update
    update-value f start a sc h = cc

    pub pure-value :
        {A : Type 0} (a b : A) (start sc : Scope Db U)
        → pure a start ≡ (value b, sc)
        → (a ≡ b) × (sc ≡ start)
    unfolding pure
    pure-value a b start sc h = (cc, cc)

    otherwise-value :
        (x : Outcome Bool × Scope Db U) (sc : Scope Db U)
        → otherwise false x ≡ (value true, sc)
        → x ≡ (value true, sc)
    otherwise-value (value b, s) sc h = h
    otherwise-value (raises e, s) sc h = cc

    pub try_or-value :
        (m : Sql Db U Bool) (start sc : Scope Db U)
        → try_or false m start ≡ (value true, sc)
        → m start ≡ (value true, sc)
    unfolding try_or
    try_or-value m start sc h = otherwise-value (m start) sc h

    module _ (driver : Driver Db) where
      -- A block that ends with a commit.
      pub committed-value :
          (start sc : Scope Db U)
          → (do commit driver; pure true) start ≡ (value true, sc)
          → (driver.commit start.db ≡ (value tt, sc.db))
            × (sc.object ≡ start.object)
            × (sc.committed ≡ true)
      unfolding commit
      committed-value start sc h =
          let (_, s, c, p) = then-value (commit driver) (pure true) start true sc h in
          let (_, s', l, k) = then-value (lift driver.commit) _ start _ s c in
          let (e, o, _) = lift-value driver.commit start _ s' l in
          let (_, same) = pure-value true true s sc p in
          (
            e ∙ ap (λ d. (value tt, d)) (ap (λ r. r.1.db) k ∙ ap (λ r. r.db) (sym same)),
            ap (λ r. r.object) same ∙ sym (ap (λ r. r.1.object) k) ∙ o,
            ap (λ r. r.committed) same ∙ sym (ap (λ r. r.1.committed) k),
          )

      closed-value :
          (begun : Db) (x : Outcome Bool × Scope Db U) (sc : Scope Db U)
          → close driver begun x ≡ (value true, sc)
          → (x ≡ (value true, x.1))
            × (sc
                ≡ (if x.1.committed then x.1 else record x.1 { db = driver.rollback begun x.1.db }))
      unfolding close
      closed-value begun (value b, s) sc h = (cc, cc)
      closed-value begun (raises e, s) sc h = cc

      -- A transaction whose block has committed.
      pub transaction-value :
          (body : Sql Db U Bool) (start sc : Scope Db U)
          → transaction driver body start ≡ (value true, sc)
          → (begun : Db) × (s : Scope Db U) × (driver.begin start.db ≡ (value tt, begun))
            × (body (record { db = begun; committed = false; object = start.object })
                ≡ (value true, s))
            × (sc ≡ (if s.committed then s else record s { db = driver.rollback begun s.db }))
      unfolding transaction close
      transaction-value body start sc h =
          let (_, s, b, c) = then-value (lift driver.begin) _ start true sc h in
          let (e, o, _) = lift-value driver.begin start _ s b in
          let (x, k) = closed-value s.db (body (record s { committed = false })) sc c in
          (
            s.db,
            (body (record s { committed = false })).1,
            e,
            ap (λ u. body (record { db = s.db; committed = false; object = u })) (sym o) ∙ x,
            k,
          )

  -- What a transaction that has committed leaves.
  pub kept-scope :
      {U : Type 0} (driver : Driver Db) (begun : Db) (s sc : Scope Db U)
      → s.committed ≡ true
      → sc ≡ (if s.committed then s else record s { db = driver.rollback begun s.db })
      → sc ≡ s
  kept-scope driver begun s sc c k = ground arith

  given_back-db : (is_valid : Bool) (db : Db) (b : Backend Db) → (give_back is_valid db b).db ≡ db
  unfolding give_back
  given_back-db true db b = refl
  given_back-db false db b = refl

  -- A method that answers true.
  answered-value :
      {U : Type 0} (u' : U) (x : Outcome Bool × Scope Db U) (b b' : Backend Db)
      → ◌≡◌ {A = Option (Bool × U) × Backend Db}
          (pair_with (recover false x.0).0 x.1.object, give_back (recover false x.0).1 x.1.db b)
          (some (true, u'), b')
      → (x ≡ (value true, x.1)) × (x.1.object ≡ u') × (b'.db ≡ x.1.db)
  unfolding recover pair_with
  answered-value {U} u' (value a, sc) b b' h = (
    cc,
    cc,
    ap (λ (r : Option (Bool × U) × Backend Db). r.1.db) (sym h) ∙ given_back-db true sc.db b,
  )
  answered-value u' (raises (soci_error no_data), sc) b b' h = cc
  answered-value u' (raises (soci_error connection_error), sc) b b' h = cc
  answered-value u' (raises (soci_error system_error), sc) b b' h = cc
  answered-value u' (raises (soci_error (other_category n)), sc) b b' h = cc
  answered-value u' (raises std_exception, sc) b b' h = cc

  pub with_connection-value :
      {U : Type 0} (u u' : U) (body : Sql Db U Bool) (b b' : Backend Db)
      → with_connection false u body b ≡ (some (true, u'), b')
      → (sc : Scope Db U) × (body (record { db = b.db; committed = false; object = u })
          ≡ (value true, sc))
        × (sc.object ≡ u')
        × (b'.db ≡ sc.db)
  unfolding with_connection
  with_connection-value u u' body b b' h =
      let x = body (record { db = b.db; committed = false; object = u }) in
      let (e, o, d) = answered-value u' x b b' h in (x.1, e, o, d)

  pub with_connection_only-value :
      (body : Sql Db (Unit {0}) Bool) (b b' : Backend Db)
      → with_connection_only false body b ≡ (some true, b')
      → (sc : Scope Db (Unit {0})) × (body (record { db = b.db; committed = false; object = tt })
          ≡ (value true, sc))
        × (b'.db ≡ sc.db)
  unfolding with_connection_only
  with_connection_only-value body b b' h =
      let x = with_connection false tt body b in
      let o : x.0 ≡ some (true, tt) = answer_of-true x.0 (ap (λ r. r.0) h) in
      let (sc, e, _, d) = with_connection-value tt tt body b x.1 (ap (λ a. (a, x.1)) o) in
      (sc, e, ap (λ r. r.db) (sym (ap (λ r. r.1) h)) ∙ d)
