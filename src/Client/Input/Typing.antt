-- ===== src/Client/Input/Typing.antt =====
-- The lines of client/src/main.cpp, one after the other: a user who types requests.
use mathlib.Core.List.{append_assoc, append-nil}
use cpp_chat_server.Prelude.{String, ◌≡◌, refl, sym, ap, ◌∙◌, List, [], ◌∷◌, ◌++◌, map, string_eq}
use cpp_chat_server.Protocol.{Payload, envelope}
use cpp_chat_server.Client.State.{Client, Line, print, print_all, send}
use cpp_chat_server.Client.Commands.RoundTrip.{
  line_of, IsTypable, request_of-line_of, line_of-not_empty, line_of-not_quit,
}
use cpp_chat_server.Client.Input.{take_line, handle_lines, help, handle_user_input}

-- Each of the requests can be typed while the client shows the room.
abbrev pub AreTypable : String → List Payload → Type 0
AreTypable room [] = Unit {0}
AreTypable room (p ∷ ps) = IsTypable room p × AreTypable room ps

take_line-line_of :
    (p : Payload) (c : Client)
    → IsTypable c.current_room p
    → take_line (line_of p) c ≡ send (envelope p) c
unfolding take_line
take_line-line_of p c h =
    rw (line_of-not_empty c.current_room p h, request_of-line_of c.current_room p h) refl

sent-handle_lines :
    (ps : List Payload) (c : Client)
    → AreTypable c.current_room ps
    → (handle_lines (map line_of ps) c).sent ≡ c.sent ++ map envelope ps
unfolding handle_lines print send
sent-handle_lines [] c h = sym (append-nil c.sent)
sent-handle_lines (p ∷ ps) c (h, hs) =
    rw (line_of-not_quit c.current_room p h, take_line-line_of p c h)
      (sent-handle_lines ps (send (envelope p) c) hs
        ∙ append_assoc c.sent (envelope p ∷ []) (map envelope ps))

print_all-keeps :
    (l : List Line) (c : Client)
    → ((print_all l c).current_room ≡ c.current_room) × ((print_all l c).sent ≡ c.sent)
unfolding print_all print
print_all-keeps [] c = (refl, refl)
print_all-keeps (line ∷ l) c = print_all-keeps l (print line c)

pub sent-handle_user_input :
    (ps : List Payload) (c : Client)
    → AreTypable c.current_room ps
    → (handle_user_input (map line_of ps) c).sent ≡ c.sent ++ map envelope ps
unfolding handle_user_input
sent-handle_user_input ps c h =
    let (room, sent) = print_all-keeps help c in
    sent-handle_lines ps (print_all help c) (rw room h) ∙ ap (λ l. l ++ map envelope ps) sent
