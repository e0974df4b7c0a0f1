-- ===== src/RoomService/Recipients.antt =====
-- broadcastToRoom of server/src/service/RoomService.cpp: the sessions that it writes to.
use cpp_chat_server.Prelude.{
  ℤ, ℕ, String, ◌≡◌, ◌≢◌, ◌↔◌, ◌⊎◌, inl, inr, refl, some, List, [], ◌∷◌, ◌++◌, map, arith, ◌==◌,
  int_eq, string_eq, int_beq_iff, Bool-cases, Option-cases,
}
use cpp_chat_server.Map.{get, to_list, Lists, Lists-iff-get}
use cpp_chat_server.Exec.{ok}
use cpp_chat_server.Protocol.{Envelope}
use cpp_chat_server.Rooms.{Rooms}
use cpp_chat_server.Rooms.Membership.{member}
use cpp_chat_server.World.{World}
use cpp_chat_server.RoomService.{recipients, members_of, broadcast_to_room}

-- Whether a session is among those of a list.
abbrev pub Has : ℕ → List ℕ → Type 0
Has t [] = ⊥
Has t (s ∷ l) = (s ≡ t) ⊎ Has t l

-- A user who is kept, with their session.
abbrev Kept : ℤ → ℕ → List (ℤ × ℕ) → Type 0
Kept excluded t l = (v : ℤ) × Lists v t l × (v ≢ excluded)

Kept-cons :
    (v excluded : ℤ) (s t : ℕ) (l : List (ℤ × ℕ))
    → v ≢ excluded
    → (s ≡ t) ⊎ Kept excluded t l
    → Kept excluded t ((v, s) ∷ l)
Kept-cons v excluded s t l ne (inl p) = (v, inl (refl, p), ne)
Kept-cons v excluded s t l ne (inr (u, p, q)) = (u, inr p, q)

recipients_sound :
    (l : List (ℤ × ℕ)) (excluded : ℤ) (t : ℕ) → Has t (recipients l excluded) → Kept excluded t l
unfolding recipients
recipients_sound [] excluded t h = absurd h
recipients_sound ((v, s) ∷ l) excluded t h = elim (Bool-cases (v == excluded)) [
  | inl out ↦ let (u, p, q) = recipients_sound l excluded t (rw out at h) in (u, inr p, q)
  | inr kept ↦
      Kept-cons v excluded s t l (λ e. cc (kept, (int_beq_iff v excluded).1 e))
        (keep (recipients_sound l excluded t) (rw kept at h))
]
  where
    keep :
        (Has t (recipients l excluded) → Kept excluded t l)
        → (s ≡ t) ⊎ Has t (recipients l excluded)
        → (s ≡ t) ⊎ Kept excluded t l
    keep f (inl p) = inl p
    keep f (inr m) = inr (f m)

recipients_complete :
    (l : List (ℤ × ℕ)) (excluded : ℤ) (t : ℕ) (v : ℤ)
    → Lists v t l
    → v ≢ excluded
    → Has t (recipients l excluded)
unfolding recipients
recipients_complete [] excluded t v h ne = absurd h
recipients_complete ((u, s) ∷ l) excluded t v (inl (p, q)) ne =
    ground (arith, int_beq_iff u excluded)
recipients_complete ((u, s) ∷ l) excluded t v (inr h) ne =
    ground (arith, recipients_complete l excluded t v h ne)

-- A session is among the recipients of a broadcast to a room exactly if it stands for a member of
-- that active room other than the excluded user.
pub recipients-iff-member :
    (rooms : Rooms) (name : String) (excluded : ℤ) (t : ℕ)
    → Has t (recipients (members_of (get rooms.active name)) excluded)
      ↔ ((v : ℤ) × (member rooms.active name v ≡ some t) × (v ≢ excluded))
unfolding members_of member recipients
recipients-iff-member rooms name excluded t = elim (Option-cases (get rooms.active name)) [
  | inl e ↦ rw e (λ h. absurd h, λ (v, p, q). cc)
  | inr (room, e) ↦ rw e (
    (λ h.
        let (v, p, q) = recipients_sound (to_list room.members) excluded t h in
        (v, (Lists-iff-get room.members v t).0 p, q)),
    (λ (v, p, q).
        recipients_complete (to_list room.members) excluded t v
          ((Lists-iff-get room.members v t).1 p) q),
  )
]

-- A broadcast writes to the recipients, in some order, and does nothing else.
pub broadcast_to_room_lem :
    {Store : Type 0} (w : World Store) (name : String) (e : Envelope) (excluded : ℤ)
    → broadcast_to_room name e excluded w ≡ (
      ok tt,
      record w {
        sent =
            w.sent
            ++ map (λ t. (t, e)) (recipients (members_of (get w.rooms.active name)) excluded);
      },
    )
unfolding broadcast_to_room
broadcast_to_room_lem w name e excluded = refl
