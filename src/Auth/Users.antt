-- ===== src/Auth/Users.antt =====
-- users/users.service.ts over the collection of users/schemas/user.schema.ts, and the enumeration of
-- roles. Passwords are hashed by bcrypt, whose two functions are a record. Saving a document that was
-- read is an update of the document with its id, with what was changed in it: a value that was set, or
-- one that was pushed on a list; if the document is gone, mongoose throws. A method runs without
-- others in between. The store keeps the keys whose deletion from the cache was asked for, which is
-- all that these methods do to it.
use msa_tuto_server.Base.{
  ℕ, String, ◌≡◌, Bool, true, false, ◌||◌, not, Option, none, some, List, [], ◌∷◌, ◌++◌, ◌==◌, eqb,
  filter, length, if◌then◌else◌, or_else, template,
}
use msa_tuto_server.Http.{
  Exception, not_found, conflict, internal, failure, Result, M, pure, throw, rethrow, ◌>>=◌, ◌>>◌,
}
use msa_tuto_server.Mongo.{Update, Collection}

pub data Role : Type 0 where
  user operator auditor admin : Role

abbrev pub role_number : Role → ℕ
role_number user = 0
role_number operator = 1
role_number auditor = 2
role_number admin = 3

abbrev pub same_role : Role → Role → Bool
same_role r q = eqb (role_number r) (role_number q)

-- `roles.includes(role)`
abbrev pub includes_role : List Role → Role → Bool
includes_role [] r = false
includes_role (q ∷ qs) r = same_role q r || includes_role qs r

pub record User : Type 0 where
  pub id : String
  pub name : String
  pub email : String
  pub password : String
  pub roles : List Role
  pub is_active : Bool
  pub last_login : Option ℕ

pub record CreateUserDto : Type 0 where
  pub name : String
  pub email : String
  pub password : String
  pub roles : Option (List Role)

-- The unique index on the email.
abbrev pub same_email : User → User → Bool
same_email u v = u.email == v.email

pub record Bcrypt : Type 0 where
  pub hash : String → String
  pub compare : String → String → Bool
  pub compare-hash : (p : String) → compare p (hash p) ≡ true

pub record Users : Type 0 where
  pub users : List User
  pub dropped_keys : List String

abbrev pub on_users : {A : Type 0} → M (List User) A → M Users A
on_users m s = let (r, us) = m s.users in (r, record s { users = us })

-- `cacheService.delete(key)`, which throws if Redis does.
abbrev pub drop_key : (String → Result (Unit {0})) → String → M Users Unit
drop_key delete_key key s = (delete_key key, record s { dropped_keys = key ∷ s.dropped_keys })

-- The catch clauses: `create`, the look-ups, `removeRole`, and those that keep nothing.
abbrev pub keep_conflict : String → Exception → Exception
keep_conflict message (conflict m) = conflict m
keep_conflict message _ = internal message

abbrev pub keep_not_found : String → Exception → Exception
keep_not_found message (not_found m) = not_found m
keep_not_found message _ = internal message

abbrev pub keep_both : String → Exception → Exception
keep_both message (not_found m) = not_found m
keep_both message (conflict m) = conflict m
keep_both message _ = internal message

abbrev pub keep_none : String → Exception → Exception
keep_none message _ = internal message

abbrev pub missing_user : String → Exception
missing_user id = not_found (template ("ID " ∷ id ∷ "를 가진 사용자를 찾을 수 없습니다" ∷ []))

abbrev pub or_missing : String → Option User → M Users User
or_missing id none = throw (missing_user id)
or_missing id (some u) = pure u

-- `save()` of a document that was read.
abbrev pub or_gone : Option User → M Users User
or_gone none = throw (failure "DocumentNotFoundError")
or_gone (some u) = pure u

-- `user.roles.push(role)`, which `save()` sends as `$push`
abbrev pub push_update : Role → Update User
push_update role = record {
  set_paths = [];
  inc_paths = [];
  change = λ u. record u { roles = u.roles ++ role ∷ [] };
}

-- `user.roles = roles`
abbrev pub role_update : List Role → Update User
role_update roles = record {
  set_paths = "roles" ∷ [];
  inc_paths = [];
  change = λ u. record u { roles = roles };
}

abbrev pub login_update : ℕ → Update User
login_update now = record {
  set_paths = "lastLogin" ∷ [];
  inc_paths = [];
  change = λ u. record u { last_login = some now };
}

-- the document that `create` saves
abbrev pub new_user : Bcrypt → CreateUserDto → String → User
new_user bcrypt dto id = record {
  id = id;
  name = dto.name;
  email = dto.email;
  password = bcrypt.hash dto.password;
  roles = or_else dto.roles (user ∷ []);
  is_active = true;
  last_login = none;
}

-- The two keys of a user in the cache.
abbrev pub drop_keys : (String → Result (Unit {0})) → String → User → M Users User
drop_keys delete_key id u = do
  drop_key delete_key (template ("user:id:" ∷ id ∷ []))
  drop_key delete_key (template ("user:" ∷ u.email ∷ []))
  pure u

module _ (c : Collection User same_email) where
  abbrev pub lookup_email : String → M Users (Option User)
  lookup_email email = on_users (λ us. (c.find_one (λ u. u.email == email) us, us))

  abbrev pub create_if_new : Bcrypt → CreateUserDto → String → Option User → M Users User
  create_if_new bcrypt dto id none = on_users (c.save (new_user bcrypt dto id))
  create_if_new bcrypt dto id (some u) = throw (conflict "이미 존재하는 이메일입니다")

  unfoldable pub create : Bcrypt → CreateUserDto → String → M Users User
  create bcrypt dto id s =
      rethrow (keep_conflict "사용자 생성 중 오류가 발생했습니다")
        ((lookup_email dto.email >>= create_if_new bcrypt dto id) s)

  -- `findById(id)` of the model
  abbrev pub lookup_id : String → M Users (Option User)
  lookup_id id = on_users (λ us. (c.find_one (λ u. u.id == id) us, us))

  abbrev pub save_user : String → Update User → M Users User
  save_user id update = do
    saved ← on_users (c.find_one_and_update (λ u. u.id == id) update)
    or_gone saved

  unfoldable pub find_by_id : String → M Users User
  find_by_id id s =
      rethrow (keep_not_found "사용자 조회 중 오류가 발생했습니다") ((lookup_id id >>= or_missing id) s)

  -- The end of `validateUser`, for the user of the email.
  abbrev pub check_password : Bcrypt → String → ℕ → Option User → M Users (Option User)
  check_password bcrypt password now none = pure none
  check_password bcrypt password now (some u) =
      if bcrypt.compare password u.password
      then (do saved ← save_user u.id (login_update now); pure (some saved))
      else pure none

  unfoldable pub validate_user : Bcrypt → String → String → ℕ → M Users (Option User)
  validate_user bcrypt email password now s =
      rethrow (keep_none "사용자 검증 중 오류가 발생했습니다")
        ((lookup_email email >>= check_password bcrypt password now) s)

  module _ (delete_key : String → Result (Unit {0})) where
    abbrev pub add_to : String → Role → User → M Users User
    add_to id role u =
        if includes_role u.roles role
        then drop_keys delete_key id u
        else (do saved ← save_user u.id (push_update role); drop_keys delete_key id saved)

    unfoldable pub add_role : String → Role → M Users User
    add_role id role s =
        rethrow (keep_not_found "사용자에 역할 추가 중 오류가 발생했습니다")
          ((lookup_id id >>= or_missing id >>= add_to id role) s)

    abbrev pub remove_from : String → Role → User → M Users User
    remove_from id role u =
        if eqb (length u.roles) 1 then throw (conflict "사용자의 마지막 역할은 제거할 수 없습니다") else (do
          saved ← save_user u.id (role_update (filter (λ r. not (same_role r role)) u.roles))
          drop_keys delete_key id saved)

    unfoldable pub remove_role : String → Role → M Users User
    remove_role id role s =
        rethrow (keep_both "사용자에서 역할 제거 중 오류가 발생했습니다")
          ((lookup_id id >>= or_missing id >>= remove_from id role) s)
