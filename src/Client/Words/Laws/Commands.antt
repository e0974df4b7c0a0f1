-- ===== src/Client/Words/Laws/Commands.antt =====
-- How the lines of client/src/main.cpp are told apart.
use Prim.Native.Char.{Char, code}
use Prim.Native.String.{String, [], ◌∷◌}
use cpp_chat_server.Prelude.{
  ℕ, ◌≡◌, ◌≢◌, ap, true, false, none, arith, ◌==◌, nat_eq, string_eq, eq_iff, Bool-cases, inl, inr,
}
use cpp_chat_server.Client.Words.{behind, private_pattern}
use cpp_chat_server.Client.Words.Laws.{is_word}

head_code : String → ℕ
head_code [] = 0
head_code (c ∷ s) = code c

tail_of : String → String
tail_of [] = []
tail_of (c ∷ s) = s

same-false : (s t : String) → ◌≢◌ {A = String} s t → (s == t) ≡ false
same-false s t ne = ground (arith, eq_iff s t)

pub other_start : (c d : Char) (s t : String) → code c ≢ code d → ((c ∷ s) == (d ∷ t)) ≡ false
unfolding head_code
other_start c d s t ne = same-false (c ∷ s) (d ∷ t) (λ e. ne (ap head_code e))

pub other_second :
    (b c d : Char) (s t : String) → code c ≢ code d → ((b ∷ (c ∷ s)) == (b ∷ (d ∷ t))) ≡ false
unfolding head_code tail_of
other_second b c d s t ne =
    same-false (b ∷ (c ∷ s)) (b ∷ (d ∷ t)) (λ e. ne (ap (λ u. head_code (tail_of u)) e))

pub not_empty : (c : Char) (s : String) → ((c ∷ s) == "") ≡ false
not_empty c s = same-false (c ∷ s) "" (λ e. cc)

-- A line is no command if it does not start like one.
pub not_leave : (c : Char) (s : String) → code c ≢ b'/' → ((c ∷ s) == "/leave") ≡ false
not_leave c s ne = other_start c "/" s "leave" ne

pub behind-slash : (c : Char) (s ps : String) → code c ≢ b'/' → behind ("/" ∷ ps) (c ∷ s) ≡ none
unfolding behind
behind-slash c s ps ne = ground arith

pub private_pattern-none : (c : Char) (s : String) → code c ≢ b'@' → private_pattern (c ∷ s) ≡ none
unfolding private_pattern
private_pattern-none c s ne = ground arith

pub is_word-nonempty : (u : String) → is_word u ≡ true → (u == "") ≡ false
is_word-nonempty u w = elim (Bool-cases (u == "")) [
  | inl e ↦ let empty : u ≡ "" = (eq_iff u "").0 e in absurd (none_is (rw empty at w))
  | inr e ↦ e
]
  where
    none_is : is_word "" ≡ true → ⊥
    none_is h = cc
