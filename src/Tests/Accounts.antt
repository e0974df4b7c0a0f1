-- ===== src/Tests/Accounts.antt =====
-- Accounts and logins, at concrete requests.
use cpp_chat_server.Prelude.{
  pos, String, ◌≡◌, ◌≢◌, refl, true, false, none, some, [], ◌∷◌, ◌++◌, arith, string_eq, int_eq,
  nat_eq, eq_iff,
}
use cpp_chat_server.Exec.{ok}
use cpp_chat_server.Domain.{User}
use cpp_chat_server.Protocol.{Envelope}
use cpp_chat_server.Crypto.{hash_password, hex, hex_digit}
use cpp_chat_server.AuthService.{
  handle_login, handle_register, handle_change_password, welcome, registered, password_changed,
}
use cpp_chat_server.AuthService.Login.{accepts, login-authenticates, login-registers}
use cpp_chat_server.AuthService.Accounts.{
  StoresUsers, new_user, register-login, change_password-login,
}
use cpp_chat_server.AuthService.Unchecked.{change_password_unchecked}
use cpp_chat_server.SessionManager.{
  find_by_username, find_by_user_id, register_authenticated_session, remove,
}
use cpp_chat_server.SessionManager.Index.{find-register_again, find-register_twice-remove}
use cpp_chat_server.Tests.Sample.{users, repos, refusing, env, alice, world, find-alice}

StoresUsers-users : StoresUsers users
StoresUsers-users = record {
  added = λ u u' st st' h. ground (arith, eq_iff u.username u.username);
  updated = λ u st st' h. (u, ground (arith, eq_iff u.username u.username), refl, refl, refl);
}

right : accepts env (some alice) "secret" ≡ true
unfolding hash_password hex hex_digit
right = refl

wrong : accepts env (some alice) "guess" ≡ false
unfolding hash_password hex hex_digit
wrong = refl

login-authenticates_example :
    let w' = (handle_login env repos 3 "alice" "secret" world).1 in
    ((w'.session 3).authenticated ≡ accepts env (some alice) "secret")
    × ((e : Envelope) × (w'.sent ≡ world.sent ++ (3, e) ∷ []))
login-authenticates_example =
    login-authenticates env repos world 3 "alice" "secret" (some alice) (alice ∷ []) refl refl

login-registers_example :
    let w' = (handle_login env repos 3 "alice" "secret" world).1 in
    ((find_by_username "alice" w').0 ≡ ok (some 3))
    × ((find_by_user_id (pos 7) w').0 ≡ ok (some 3))
    × ((w'.session 3).user_id ≡ some (pos 7))
    × ((w'.session 3).username ≡ some "alice")
    × (w'.sent ≡ world.sent ++ (3, welcome alice) ∷ [])
login-registers_example =
    login-registers env repos world 3 "alice" "secret" alice (alice ∷ []) refl right

register-login_example :
    let w' = (handle_register env repos 3 "carol" "pass" world).1 in
    (w'.sent ≡ world.sent ++ (3, registered "carol") ∷ [])
    × (((handle_login env repos 4 "carol" "pass" w').1.session 4).authenticated ≡ true)
    × (((handle_login env repos 4 "carol" "pass" w').1.session 4).username ≡ some "carol")
register-login_example =
    register-login env repos world 3 StoresUsers-users 4 "carol" "pass" (1 ∷ 2 ∷ [])
      (new_user env "carol" "pass" (1 ∷ 2 ∷ [])) (alice ∷ [])
      (new_user env "carol" "pass" (1 ∷ 2 ∷ []) ∷ alice ∷ []) refl refl refl

-- alice, with the password that `world` is asked to give her.
abbrev renewed : User
renewed = record alice {
  salt = hex (1 ∷ 2 ∷ []);
  hashed_password = hash_password env "changed" (hex (1 ∷ 2 ∷ []));
}

secret-empty : ◌≢◌ {A = String} "secret" ""
secret-empty = ground (arith, eq_iff "secret" "")

changed-empty : ◌≢◌ {A = String} "changed" ""
changed-empty = ground (arith, eq_iff "changed" "")

secret-changed : ◌≢◌ {A = String} "secret" "changed"
secret-changed = ground (arith, eq_iff "secret" "changed")

change_password-login_example :
    let w' = (handle_change_password env repos 1 "secret" "changed" world).1 in
    (w'.sent ≡ world.sent ++ (1, password_changed) ∷ [])
    × (((handle_login env repos 4 "alice" "changed" w').1.session 4).authenticated ≡ true)
change_password-login_example =
    change_password-login env repos world 1 StoresUsers-users 4 alice "secret" "changed"
      (1 ∷ 2 ∷ []) (alice ∷ []) (renewed ∷ alice ∷ []) refl refl refl right secret-empty
      changed-empty secret-changed refl refl

alice-carol : ◌≢◌ {A = String} "alice" "carol"
alice-carol = ground (arith, eq_iff "alice" "carol")

find-register_again_example :
    let w' = (register_authenticated_session 1 (pos 9) "carol" world).1 in
    ((find_by_username "alice" w').0 ≡ ok (some 1))
    × ((find_by_username "carol" w').0 ≡ ok (some 1))
    × ((w'.session 1).username ≡ some "carol")
find-register_again_example =
    find-register_again world 1 (pos 9) "alice" "carol" find-alice alice-carol

find-register_twice-remove_example :
    let w₁ = (register_authenticated_session 3 (pos 9) "carol" world).1 in
    let w₂ = (register_authenticated_session 4 (pos 9) "carol" w₁).1 in
    let w₃ = (remove 3 w₂).1 in
    ((find_by_username "carol" w₃).0 ≡ ok none)
    × ((find_by_user_id (pos 9) w₃).0 ≡ ok none)
    × ((w₃.session 4).authenticated ≡ true)
find-register_twice-remove_example =
    find-register_twice-remove world 3 4 (pos 9) "carol" (omega arith)

change_password_unchecked_example :
    handle_change_password env refusing 1 "secret" "changed" world
    ≡ (ok tt, record world { sent = world.sent ++ (1, password_changed) ∷ [] })
change_password_unchecked_example =
    change_password_unchecked env refusing world 1 alice refl refl "secret" "changed" (1 ∷ 2 ∷ [])
      (alice ∷ []) (alice ∷ []) false refl right secret-empty changed-empty secret-changed refl refl

carol-empty : ◌≢◌ {A = String} "carol" ""
carol-empty = ground (arith, eq_iff "carol" "")

carol-alice : ◌≢◌ {A = String} "carol" "alice"
carol-alice = ground (arith, eq_iff "carol" "alice")
