-- ===== src/Auth/Examples.antt =====
-- Users at work: tests, and the theorem at a concrete input.
use msa_tuto_server.Base.{String, ◌≡◌, refl, true, none, [], ◌∷◌, ◌==◌, eq_refl, Bool-cases}
use msa_tuto_server.Http.{Result, ok, err, conflict, internal, failure}
use msa_tuto_server.Mongo.{Collection}
use msa_tuto_server.Mongo.Memory.{memory}
use msa_tuto_server.Auth.Users.{
  user, admin, User, CreateUserDto, Users, Bcrypt, same_email, create, validate_user, add_role,
  remove_role,
}

abbrev store : Collection User same_email
store = memory same_email

-- A hash that hides nothing, for these inputs.
abbrev plain : Bcrypt
plain = record { hash = λ p. p; compare = λ p h. p == h; compare-hash = λ p. eq_refl p }

abbrev ann : User
ann = record {
  id = "u1";
  name = "ann";
  email = "ann@example.com";
  password = "secret";
  roles = user ∷ [];
  is_active = true;
  last_login = none;
}

abbrev bob : CreateUserDto
bob = record { name = "bob"; email = "bob@example.com"; password = "pw"; roles = none }

abbrev one_user : Users
one_user = record { users = ann ∷ []; dropped_keys = [] }

-- A cache that deletes every key.
abbrev deletes : String → Result (Unit {0})
deletes key = ok tt

-- A cache that cannot be reached.
abbrev unreachable : String → Result (Unit {0})
unreachable key = err (failure "ECONNREFUSED")

remove_role_last :
    (remove_role store deletes "u1" user one_user).0 ≡ err (conflict "사용자의 마지막 역할은 제거할 수 없습니다")
unfolding remove_role memory Bool-cases
remove_role_last = refl

add_role_twice :
    (add_role store deletes "u1" admin (add_role store deletes "u1" admin one_user).1).1.users
    ≡ record ann { roles = user ∷ admin ∷ [] } ∷ []
unfolding add_role memory Bool-cases
add_role_twice = refl

-- The role stays added when the cache fails and the request with it.
add_role_without_cache : add_role store unreachable "u1" admin one_user ≡ (
  err (internal "사용자에 역할 추가 중 오류가 발생했습니다"),
  record {
    users = record ann { roles = user ∷ admin ∷ [] } ∷ [];
    dropped_keys = "user:id:u1" ∷ [];
  },
)
unfolding add_role memory Bool-cases
add_role_without_cache = refl

create_taken :
    (create store plain (record bob { email = "ann@example.com" }) "u2" one_user).0
    ≡ err (conflict "이미 존재하는 이메일입니다")
unfolding create memory Bool-cases
create_taken = refl

validate_user_wrong_password :
    (validate_user store plain "ann@example.com" "guess" 5 one_user).0 ≡ ok none
unfolding validate_user memory Bool-cases
validate_user_wrong_password = refl
