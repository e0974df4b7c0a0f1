-- ===== src/Client/Words.antt =====
-- What handle_user_input of client/src/main.cpp takes from the standard library: `rfind(prefix, 0)`
-- with `substr`, the words that `>>` reads from a stringstream, and the pattern `^@(\S+)\s+(.+)`.
pub mod Laws
use Prim.Native.Char.{Char, code}
use Prim.Native.String.{String, [], ◌∷◌, ◌++◌}
use cpp_chat_server.Prelude.{
  ℕ, ◌≡◌, refl, ap, Bool, true, false, not, ◌&&◌, ◌||◌, Option, none, some, arith, ◌==◌, leb,
  if◌then◌else◌, nat_eq, nat_beq_iff, string_eq,
}

-- The white space of the C locale. A byte above 127 is none, and no more is a code point above it.
unfoldable pub is_space : Char → Bool
is_space c = code c == b' ' || (leb 9 (code c) && leb (code c) 13)

-- `.` of an ECMAScript pattern: no line terminator.
unfoldable pub is_dot : Char → Bool
is_dot c = not (code c == 10 || code c == 13)

-- What stands behind a prefix: `rfind(prefix, 0) == 0`, and `substr(prefix.size())`.
unfoldable pub behind : String → String → Option String
behind [] s = some s
behind (p ∷ ps) [] = none
behind (p ∷ ps) (c ∷ s) = let rest = behind ps s in if code p == code c then rest else none

unfoldable pub skip_spaces : String → String
skip_spaces [] = []
skip_spaces (c ∷ s) = let rest = skip_spaces s in if is_space c then rest else c ∷ s

-- The longest run of characters that are no space, and what follows it.
pub take_word : String → String × String
take_word [] = ([], [])
take_word (c ∷ s) =
    let (word, rest) = take_word s in if is_space c then ([], c ∷ s) else (c ∷ word, rest)

-- `ss >> word`, which leaves an empty word at the end of the text
unfoldable pub next_word : String → String × String
unfolding skip_spaces take_word
next_word s = take_word (skip_spaces s)

-- `ss >> cmd >> user >> pass`
unfoldable pub credentials : String → String × String
unfolding next_word
credentials line =
    let (command, after_command) = next_word line in
    let (user, after_user) = next_word after_command in
    let (pass, _) = next_word after_user in (user, pass)

-- A run of spaces, and what follows it.
pub take_spaces : String → String × String
take_spaces [] = ([], [])
take_spaces (c ∷ s) =
    let (spaces, rest) = take_spaces s in if is_space c then (c ∷ spaces, rest) else ([], c ∷ s)

unfoldable pub all_dots : String → Bool
all_dots [] = true
all_dots (c ∷ s) = let rest = all_dots s in is_dot c && rest

-- Where nothing follows the spaces, `\s+` gives the last one back to `.+`, if it keeps one itself.
pub last_of_spaces : String → Option String
last_of_spaces [] = none
last_of_spaces (c ∷ []) = none
last_of_spaces (c ∷ d ∷ []) = if is_dot d then some (d ∷ []) else none
last_of_spaces (c ∷ d ∷ e ∷ s) = last_of_spaces (d ∷ e ∷ s)

-- `\s+(.+)` to the end of the line
matched_content : String → String → Option String
unfolding all_dots last_of_spaces
matched_content [] rest = none
matched_content (c ∷ spaces) [] = last_of_spaces (c ∷ spaces)
matched_content (c ∷ spaces) (d ∷ rest) = if all_dots (d ∷ rest) then some (d ∷ rest) else none

with_name : String → Option String → Option (String × String)
with_name name none = none
with_name name (some content) = some (name, content)

-- `(\S+)\s+(.+)`: the name is a whole word, since a space must follow it.
matched_name : String → String → Option (String × String)
unfolding take_spaces matched_content with_name
matched_name [] rest = none
matched_name (c ∷ name) rest =
    let (spaces, content) = take_spaces rest in
    with_name (c ∷ name) (matched_content spaces content)

unfoldable pub private_pattern : String → Option (String × String)
unfolding take_word matched_name
private_pattern [] = none
private_pattern (c ∷ s) =
    let (name, rest) = take_word s in if code c == b'@' then matched_name name rest else none
