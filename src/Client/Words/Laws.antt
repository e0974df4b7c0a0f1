-- ===== src/Client/Words/Laws.antt =====
-- The words and the pattern of client/src/main.cpp on texts that are built from words.
pub mod Commands
use Prim.Native.Char.{Char, code}
use Prim.Native.String.{String, [], ◌∷◌}
use cpp_chat_server.Prelude.{
  ℕ, ◌≡◌, ◌≢◌, refl, ap, sym, ◌∙◌, Bool, true, false, not, ◌&&◌, Option, none, some, arith, ◌==◌,
  if◌then◌else◌, nat_eq, string_eq, eq_iff, Bool-cases, inl, inr,
}
use cpp_chat_server.Client.Words.{
  is_space, is_dot, skip_spaces, take_word, next_word, credentials, behind, private_pattern,
  take_spaces, all_dots, matched_content, matched_name, with_name,
}

-- One text behind another, by its characters.
infixr 40 ◌<>◌
abbrev pub ◌<>◌ : String → String → String
◌<>◌ [] t = t
◌<>◌ (c ∷ s) t = c ∷ (s <> t)

append-nil : (s : String) → s <> [] ≡ s
append-nil [] = refl
append-nil (c ∷ s) = ap (◌∷◌ c) (append-nil s)

-- No character of the text is a space.
abbrev pub no_spaces : String → Bool
no_spaces [] = true
no_spaces (c ∷ s) = let rest = no_spaces s in if is_space c then false else rest

abbrev pub is_word : String → Bool
is_word [] = false
is_word (c ∷ s) = no_spaces (c ∷ s)

take_word-space : (c : Char) (s : String) → is_space c ≡ true → take_word (c ∷ s) ≡ ([], c ∷ s)
unfolding take_word
take_word-space c s e = ground arith

take_word-cons :
    (c : Char) (s : String)
    → is_space c ≡ false
    → take_word (c ∷ s) ≡ (c ∷ (take_word s).0, (take_word s).1)
unfolding take_word
take_word-cons c s e = ground arith

no_spaces-head : (c : Char) (s : String) → no_spaces (c ∷ s) ≡ true → is_space c ≡ false
no_spaces-head c s n = ground arith

no_spaces-tail : (c : Char) (s : String) → no_spaces (c ∷ s) ≡ true → no_spaces s ≡ true
no_spaces-tail c s n = ground arith

-- A word with a space behind it.
pub take_word-append :
    (u s : String) (c : Char)
    → no_spaces u ≡ true
    → is_space c ≡ true
    → take_word (u <> (c ∷ s)) ≡ (u, c ∷ s)
take_word-append [] s c n e = take_word-space c s e
take_word-append (d ∷ u) s c n e =
    take_word-cons d (u <> (c ∷ s)) (no_spaces-head d u n)
    ∙ ap (λ r. (d ∷ r.0, r.1)) (take_word-append u s c (no_spaces-tail d u n) e)

-- A word at the end.
pub take_word_all : (u : String) → no_spaces u ≡ true → take_word u ≡ (u, [])
unfolding take_word
take_word_all [] n = refl
take_word_all (d ∷ u) n =
    take_word-cons d u (no_spaces-head d u n)
    ∙ ap (λ r. (d ∷ r.0, r.1)) (take_word_all u (no_spaces-tail d u n))

skip_spaces-cons : (c : Char) (s : String) → is_space c ≡ false → skip_spaces (c ∷ s) ≡ c ∷ s
unfolding skip_spaces
skip_spaces-cons c s e = ground arith

pub skip_spaces-space :
    (c : Char) (s : String) → is_space c ≡ true → skip_spaces (c ∷ s) ≡ skip_spaces s
unfolding skip_spaces
skip_spaces-space c s e = ground arith

pub skip_spaces-word : (u s : String) → is_word u ≡ true → skip_spaces (u <> s) ≡ u <> s
skip_spaces-word [] s w = cc
skip_spaces-word (c ∷ u) s w = skip_spaces-cons c (u <> s) (no_spaces-head c u w)

is_word-no_spaces : (u : String) → is_word u ≡ true → no_spaces u ≡ true
is_word-no_spaces [] w = cc
is_word-no_spaces (c ∷ u) w = w

-- The next word, behind one space, with a space behind it, and at the end.
pub next_word-append :
    (u s : String) (c d : Char)
    → is_word u ≡ true
    → is_space c ≡ true
    → is_space d ≡ true
    → next_word (c ∷ (u <> (d ∷ s))) ≡ (u, d ∷ s)
unfolding next_word
next_word-append u s c d w e f =
    ap take_word (skip_spaces-space c (u <> (d ∷ s)) e ∙ skip_spaces-word u (d ∷ s) w)
    ∙ take_word-append u s d (is_word-no_spaces u w) f

pub next_word_all :
    (u : String) (c : Char) → is_word u ≡ true → is_space c ≡ true → next_word (c ∷ u) ≡ (u, [])
unfolding next_word
next_word_all u c w e =
    ap take_word (
      skip_spaces-space c u e
      ∙ ap skip_spaces (sym (append-nil u))
      ∙ skip_spaces-word u [] w
      ∙ append-nil u)
    ∙ take_word_all u (is_word-no_spaces u w)

-- One space, and a text that starts with none.
abbrev pub is_content : String → Bool
is_content [] = false
is_content (c ∷ s) = if is_space c then false else all_dots (c ∷ s)

take_spaces-stop : (c : Char) (s : String) → is_space c ≡ false → take_spaces (c ∷ s) ≡ ([], c ∷ s)
unfolding take_spaces
take_spaces-stop c s e = ground arith

take_spaces-space :
    (c : Char) (s : String)
    → is_space c ≡ true
    → take_spaces (c ∷ s) ≡ (c ∷ (take_spaces s).0, (take_spaces s).1)
unfolding take_spaces
take_spaces-space c s e = ground arith

pub take_spaces-content :
    (c : Char) (s : String)
    → is_space c ≡ true
    → is_content s ≡ true
    → take_spaces (c ∷ s) ≡ (c ∷ [], s)
take_spaces-content c [] e k = cc
take_spaces-content c (d ∷ s) e k =
    take_spaces-space c (d ∷ s) e ∙ ap (λ r. (c ∷ r.0, r.1)) (take_spaces-stop d s (ground arith))

pub all_dots-content : (s : String) → is_content s ≡ true → all_dots s ≡ true
all_dots-content [] k = cc
all_dots-content (c ∷ s) k = ground arith

next_word-first :
    (u s : String) (d : Char)
    → is_word u ≡ true
    → is_space d ≡ true
    → next_word (u <> (d ∷ s)) ≡ (u, d ∷ s)
unfolding next_word
next_word-first u s d w f =
    ap take_word (skip_spaces-word u (d ∷ s) w) ∙ take_word-append u s d (is_word-no_spaces u w) f

abbrev blank : Char
blank = " "

is_space-blank : is_space blank ≡ true
unfolding is_space
is_space-blank = refl

-- A command, a name and a password, each behind one space.
pub credentials_lem :
    (command user pass : String)
    → is_word command ≡ true
    → is_word user ≡ true
    → is_word pass ≡ true
    → credentials (command <> (blank ∷ (user <> (blank ∷ pass)))) ≡ (user, pass)
unfolding credentials
credentials_lem command user pass c u p =
    rw
      (
        next_word-first command (user_and_pass) blank c is_space-blank,
        next_word-append user pass blank blank u is_space-blank is_space-blank,
        next_word_all pass blank p is_space-blank,
      )
      refl
  where
    user_and_pass : String
    user_and_pass = user <> (blank ∷ pass)

matched_content_lem : (s : String) → is_content s ≡ true → matched_content (blank ∷ []) s ≡ some s
unfolding matched_content
matched_content_lem [] k = cc
matched_content_lem (c ∷ s) k = rw (all_dots-content (c ∷ s) k) refl

matched_name_lem :
    (to content : String)
    → is_word to ≡ true
    → is_content content ≡ true
    → matched_name to (blank ∷ content) ≡ some (to, content)
unfolding matched_name
matched_name_lem [] content w k = cc
matched_name_lem (c ∷ to) content w k =
    rw (take_spaces-content blank content is_space-blank k, matched_content_lem content k) refl

pub private_pattern_lem :
    (to content : String)
    → is_word to ≡ true
    → is_content content ≡ true
    → private_pattern ("@" ∷ (to <> (blank ∷ content))) ≡ some (to, content)
unfolding private_pattern
private_pattern_lem to content w k =
    rw (take_word-append to content blank (is_word-no_spaces to w) is_space-blank)
      (matched_name_lem to content w k)
