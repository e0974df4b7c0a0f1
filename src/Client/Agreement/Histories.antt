-- ===== src/Client/Agreement/Histories.antt =====
-- A client of client/src/client.cpp through the room operations of several sessions that
-- server/src/service/RoomService.cpp handles one after the other.
use cpp_chat_server.Prelude.{
  ℤ, ℕ, String, ◌≡◌, ◌≢◌, ◌⊎◌, inl, inr, sym, subst, ap, ◌∙◌, true, some, List, [], ◌∷◌, arith,
}
use cpp_chat_server.Protocol.{RoomOperation, join, leave, create, unrecognized}
use cpp_chat_server.Repository.{Repositories}
use cpp_chat_server.World.{World}
use cpp_chat_server.RoomService.{handle_room_operation}
use cpp_chat_server.Client.State.{Client, Texts}
use cpp_chat_server.Client.Agreement.{Agrees}
use cpp_chat_server.Client.Agreement.Operations.{IsFollowed, operation-Agrees}
use cpp_chat_server.Client.Agreement.Others.{others-Agrees}

-- A request of a session.
pub record Request : Type 0 where
  pub session : ℕ
  pub operation : RoomOperation
  pub room_name : String

module _ {Store : Type 0} (repos : Repositories Store) where
  abbrev after : Request → World Store → World Store
  after r w = (handle_room_operation repos r.session r.operation r.room_name w).1

  abbrev pub handle_all : List Request → World Store → World Store
  handle_all [] w = w
  handle_all (r ∷ l) w = handle_all l (after r w)

  session-after : (r : Request) (w : World Store) (t : ℕ) → (after r w).session t ≡ w.session t
  unfolding handle_room_operation
  session-after r w t = elim r.operation [
    | join ↦ ground arith
    | leave ↦ ground arith
    | create ↦ ground arith
    | unrecognized m ↦ ground arith
  ]

  module _ (s : ℕ) (user : ℤ) where
    -- A request of the session that its client can follow, or one of another session that is not the
    -- user's.
    abbrev pub IsHarmless : Request → World Store → Type 0
    IsHarmless r w =
        ((r.session ≡ s) × IsFollowed repos w user r.room_name r.operation)
        ⊎ ((r.session ≢ s) × ((w.session r.session).user_id ≢ some user))

    abbrev pub AreHarmless : List Request → World Store → Type 0
    AreHarmless [] w = Unit {0}
    AreHarmless (r ∷ l) w = IsHarmless r w × AreHarmless l (after r w)

    module _ (texts : Texts) (c : Client) (username : String) where
      one-Agrees :
          (r : Request) (w : World Store)
          → (w.session s).authenticated ≡ true
          → (w.session s).user_id ≡ some user
          → (w.session s).username ≡ some username
          → IsHarmless r w
          → Agrees texts c s user w
          → Agrees texts c s user (after r w)
      one-Agrees r w a i n (inl (e, f)) h =
          subst
            (λ t. Agrees texts c s user (handle_room_operation repos t r.operation r.room_name w).1)
            (sym e)
            (operation-Agrees repos texts c w s user username a i n r.room_name r.operation f h)
      one-Agrees r w a i n (inr (d, o)) h =
          others-Agrees repos texts c w s r.session user r.operation r.room_name d o h

      -- If the client of an authenticated user, having handled everything that was sent to its
      -- session, shows the room that the server has the user in, then so it does after any list of
      -- room operations, one after the other, each of which is of another session that is not the
      -- user's, or of this session and one of: a JOIN, if the look-up does not throw; a LEAVE of
      -- the room that the server has the user in; a CREATE of a free name that the repository
      -- adds; an operation without a name.
      pub handle_all-Agrees :
          (l : List Request) (w : World Store)
          → (w.session s).authenticated ≡ true
          → (w.session s).user_id ≡ some user
          → (w.session s).username ≡ some username
          → AreHarmless l w
          → Agrees texts c s user w
          → Agrees texts c s user (handle_all l w)
      handle_all-Agrees [] w a i n q h = h
      handle_all-Agrees (r ∷ l) w a i n (q, qs) h =
          let same = session-after r w s in
          handle_all-Agrees l (after r w) (ap (λ x. x.authenticated) same ∙ a)
            (ap (λ x. x.user_id) same ∙ i) (ap (λ x. x.username) same ∙ n) qs
            (one-Agrees r w a i n q h)
