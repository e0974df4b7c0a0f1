-- ===== src/SessionManager/Index.antt =====
-- The two indexes of server/src/core/SessionManager.h, and the users of the sessions that they hold.
use cpp_chat_server.Prelude.{
  ℤ, ℕ, String, ◌≡◌, ◌≢◌, true, false, none, some, arith, nat_eq, int_eq, string_eq, eq_iff,
  int_beq_iff, nat_beq_iff,
}
use cpp_chat_server.Map.{get, get-put, get-erase}
use cpp_chat_server.Exec.{ok}
use cpp_chat_server.Session.{IsIdentified}
use cpp_chat_server.World.{World}
use cpp_chat_server.SessionManager.{
  remove, update_username, register_authenticated_session, find_by_username, find_by_user_id,
}

-- An indexed session is the one that its key names.
pub record IsIndexed {Store : Type 0} (w : World Store) : Type 0 where
  pub by_id :
      (id : ℤ) (s : ℕ)
      → get w.manager.sessions_by_user_id id ≡ some s
      → (w.session s).user_id ≡ some id
  pub by_name :
      (name : String) (s : ℕ)
      → get w.manager.sessions_by_username name ≡ some s
      → (w.session s).username ≡ some name

-- Every session object is identified.
pub record AreIdentified {Store : Type 0} (w : World Store) : Type 0 where
  pub at : (s : ℕ) → IsIdentified (w.session s)

module _ {Store : Type 0} (w : World Store) (s : ℕ) where
  pub register-AreIdentified :
      (id : ℤ) (name : String)
      → AreIdentified w
      → AreIdentified (register_authenticated_session s id name w).1
  unfolding register_authenticated_session
  register-AreIdentified id name a = record { at = λ t. ground (arith, a.at t) }

  -- Where sessions have a user id and a name exactly while they are authenticated, registering a
  -- session that was not authenticated keeps both indexes right: each key still names the user of
  -- the session under it.
  pub register-IsIndexed :
      (id : ℤ) (name : String)
      → (w.session s).authenticated ≡ false
      → AreIdentified w
      → IsIndexed w
      → IsIndexed (register_authenticated_session s id name w).1
  unfolding register_authenticated_session
  register-IsIndexed id name fresh a x = record {
    by_id = λ i t h. ground (
      arith,
      a.at s,
      x.by_id i t,
      get-put w.manager.sessions_by_user_id id i s,
      int_beq_iff id i,
    );
    by_name = λ n t h. ground (
      arith,
      a.at s,
      x.by_name n t,
      get-put w.manager.sessions_by_username name n s,
      eq_iff name n,
    );
  }

  pub remove-ok : AreIdentified w → (remove s w).0 ≡ ok tt
  unfolding remove
  remove-ok a = ground (arith, a.at s)

  pub remove-IsIndexed : AreIdentified w → IsIndexed w → IsIndexed (remove s w).1
  unfolding remove
  remove-IsIndexed a x = record {
    by_id = λ i t h. grind (arith, a.at s, x.by_id i t, get-erase, int_beq_iff);
    by_name = λ n t h. grind (arith, a.at s, x.by_name n t, get-erase, eq_iff);
  }

  -- Where sessions have a user id and a name exactly while they are authenticated, a change of
  -- name keeps both indexes right: each key still names the user of the session under it.
  pub update_username-IsIndexed :
      (name : String) → AreIdentified w → IsIndexed w → IsIndexed (update_username s name w).1
  unfolding update_username
  update_username-IsIndexed name a x = record {
    by_id = λ i t h. grind (arith, a.at s, x.by_id i t, nat_beq_iff);
    by_name =
        λ n t h. grind (arith, a.at s, x.by_name n t, get-erase, get-put, eq_iff, nat_beq_iff);
  }

  pub remove-AreIdentified : AreIdentified w → AreIdentified (remove s w).1
  unfolding remove
  remove-AreIdentified a = record { at = λ t. ground (arith, a.at s, a.at t) }

  pub update_username-AreIdentified :
      (name : String) → AreIdentified w → AreIdentified (update_username s name w).1
  unfolding update_username
  update_username-AreIdentified name a = record {
    at = λ t. ground (arith, a.at s, a.at t, nat_beq_iff s t);
  }

  -- Where sessions have a user id and a name exactly while they are authenticated, and the indexes
  -- name the sessions' own users, a session that is removed is in neither index, under no key.
  pub remove-unlisted :
      AreIdentified w
      → IsIndexed w
      → ((id : ℤ) → get (remove s w).1.manager.sessions_by_user_id id ≢ some s)
        × ((name : String) → get (remove s w).1.manager.sessions_by_username name ≢ some s)
  unfolding remove
  remove-unlisted a x = (
    λ id h. grind (arith, a.at s, x.by_id id s, get-erase, int_beq_iff),
    λ name h. grind (arith, a.at s, x.by_name name s, get-erase, eq_iff),
  )

  -- After a login the user is found under both keys.
  pub find-register :
      (id : ℤ) (name : String)
      → let w' = (register_authenticated_session s id name w).1 in
        ((find_by_username name w').0 ≡ ok (some s))
        × ((find_by_user_id id w').0 ≡ ok (some s))
        × ((w'.session s).authenticated ≡ true)
  unfolding register_authenticated_session find_by_username find_by_user_id
  find-register id name =
      grind (arith, get-put, eq_iff name name, int_beq_iff id id, nat_beq_iff s s)

  -- After a session's name is changed to another one, the session is found under the new name,
  -- nobody is found under the old one, and the session object has the new name.
  pub find-update_username :
      (old new : String)
      → (w.session s).username ≡ some old
      → old ≢ new
      → let w' = (update_username s new w).1 in
        ((find_by_username new w').0 ≡ ok (some s))
        × ((find_by_username old w').0 ≡ ok none)
        × ((w'.session s).username ≡ some new)
  unfolding update_username find_by_username
  find-update_username old new h ne = grind (
    arith,
    get-put,
    get-erase,
    eq_iff old old,
    eq_iff new new,
    eq_iff new old,
    eq_iff old new,
    nat_beq_iff s s,
  )

  -- If the index holds a session under one name and it is registered again under another name,
  -- then the session is found under both names, though its own name is the second.
  pub find-register_again :
      (id : ℤ) (old name : String)
      → get w.manager.sessions_by_username old ≡ some s
      → old ≢ name
      → let w' = (register_authenticated_session s id name w).1 in
        ((find_by_username old w').0 ≡ ok (some s))
        × ((find_by_username name w').0 ≡ ok (some s))
        × ((w'.session s).username ≡ some name)
  unfolding register_authenticated_session find_by_username
  find-register_again id old name h ne =
      grind (arith, get-put, eq_iff name old, eq_iff name name, nat_beq_iff s s)

  -- If two sessions are registered for the same user and the first of them is removed, the user is
  -- found under neither key, though the second session is still authenticated.
  pub find-register_twice-remove :
      (t : ℕ) (id : ℤ) (name : String)
      → s ≢ t
      → let w₁ = (register_authenticated_session s id name w).1 in
        let w₂ = (register_authenticated_session t id name w₁).1 in
        let w₃ = (remove s w₂).1 in
        ((find_by_username name w₃).0 ≡ ok none)
        × ((find_by_user_id id w₃).0 ≡ ok none)
        × ((w₃.session t).authenticated ≡ true)
  unfolding register_authenticated_session remove find_by_username find_by_user_id
  find-register_twice-remove t id name ne = grind (
    arith,
    get-put,
    get-erase,
    eq_iff name name,
    int_beq_iff id id,
    nat_beq_iff t t,
    nat_beq_iff t s,
    nat_beq_iff s s,
  )
