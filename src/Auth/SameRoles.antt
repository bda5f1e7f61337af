-- ===== src/Auth/SameRoles.antt =====
-- Methods of the users service that change no roles, and what `create` adds.
use msa_tuto_server.Base.{
  ℕ, String, ◌≡◌, refl, ◌∙◌, ap, Bool, ◌⊎◌, inl, inr, Option, none, some, List, [], ◌∷◌, ◌++◌, map,
  ◌==◌, Bool-cases,
}
use msa_tuto_server.Http.{Result, ok, err, pure, continue, ◌>>=◌}
use msa_tuto_server.Http.Moves.{Moves, IsPath, Moves-bind, Moves-rethrow, rethrow_state}
use msa_tuto_server.Mongo.{Collection, Saved}
use msa_tuto_server.Mongo.Laws.{update-map}
use msa_tuto_server.Auth.Users.{
  Role, User, CreateUserDto, Users, Bcrypt, same_email, on_users, or_gone, or_missing, login_update,
  new_user, lookup_email, create_if_new, create, lookup_id, find_by_id, save_user, check_password,
  validate_user, keep_conflict, keep_none, keep_not_found,
}
use msa_tuto_server.Auth.Session.{Store}

abbrev pub role_lists : List User → List (List Role)
role_lists us = map (λ u. u.roles) us

-- No user's roles change, and no user is added or removed.
abbrev pub SameRoles : Users → Users → Type 0
SameRoles s t = role_lists t.users ≡ role_lists s.users

SameRoles-IsPath : IsPath SameRoles
SameRoles-IsPath = record { stay = λ s. refl; follow = λ s t u h k. k ∙ h }

module _ {K : Type 0} where
  abbrev pub KeepsRoles : Store K → Store K → Type 0
  KeepsRoles s t = SameRoles s.people t.people

  pub KeepsRoles-IsPath : IsPath KeepsRoles
  KeepsRoles-IsPath = record { stay = λ s. refl; follow = λ s t u h k. k ∙ h }

role_lists-append :
    (us : List User) (u : User) → role_lists (us ++ u ∷ []) ≡ role_lists us ++ u.roles ∷ []
role_lists-append [] u = refl
role_lists-append (v ∷ us) u = ap (λ l. v.roles ∷ l) (role_lists-append us u)

module _ (c : Collection User same_email) where
  or_gone-SameRoles : (r : Option User) → Moves SameRoles (or_gone r)
  or_gone-SameRoles none = record { run = λ s. refl }
  or_gone-SameRoles (some u) = record { run = λ s. refl }

  or_missing-SameRoles : (id : String) (r : Option User) → Moves SameRoles (or_missing id r)
  or_missing-SameRoles id none = record { run = λ s. refl }
  or_missing-SameRoles id (some u) = record { run = λ s. refl }

  update-SameRoles :
      (p : User → Bool) (now : ℕ)
      → Moves SameRoles (on_users (c.find_one_and_update p (login_update now)))
  update-SameRoles p now = record {
    run = λ s. update-map c (λ u. u.roles) p (login_update now) s.users (λ u. refl);
  }

  save_user-SameRoles :
      (id : String) (now : ℕ) → Moves SameRoles (save_user c id (login_update now))
  save_user-SameRoles id now =
      Moves-bind SameRoles-IsPath _ or_gone (update-SameRoles (λ u. u.id == id) now)
        or_gone-SameRoles

  check_password-SameRoles :
      (bcrypt : Bcrypt) (password : String) (now : ℕ) (r : Option User)
      → Moves SameRoles (check_password c bcrypt password now r)
  check_password-SameRoles bcrypt password now none = record { run = λ s. refl }
  check_password-SameRoles bcrypt password now (some u) =
      elim (Bool-cases (bcrypt.compare password u.password)) [
        | inl t ↦ rw t (
            Moves-bind SameRoles-IsPath (save_user c u.id (login_update now)) (λ v. pure (some v))
              (save_user-SameRoles u.id now) (λ v. record { run = λ s. refl }))
        | inr f ↦ rw f (record { run = λ s. refl })
      ]

  pub validate_user-SameRoles :
      (bcrypt : Bcrypt) (email password : String) (now : ℕ)
      → Moves SameRoles (validate_user c bcrypt email password now)
  unfolding validate_user
  validate_user-SameRoles bcrypt email password now = Moves-rethrow SameRoles (keep_none _) _ (
      Moves-bind SameRoles-IsPath (lookup_email c email) (check_password c bcrypt password now)
        (record { run = λ s. refl }) (check_password-SameRoles bcrypt password now))

  pub find_by_id-SameRoles : (id : String) → Moves SameRoles (find_by_id c id)
  unfolding find_by_id
  find_by_id-SameRoles id = Moves-rethrow SameRoles (keep_not_found _) _ (
      Moves-bind SameRoles-IsPath (lookup_id c id) (or_missing id) (record { run = λ s. refl })
        (or_missing-SameRoles id))

  save-role_lists :
      (s : Users) (u : User)
      → SameRoles s (on_users (c.save u) s).1
        ⊎ (role_lists (on_users (c.save u) s).1.users ≡ role_lists s.users ++ u.roles ∷ [])
  save-role_lists s u = elim (c.save_law u s.users) [
    | Saved.failed m e ↦ inl (rw e refl)
    | Saved.added g e ↦ inr (rw e (role_lists-append s.users u))
  ]

  create_if_new-role_lists :
      (bcrypt : Bcrypt) (dto : CreateUserDto) (id : String) (s : Users) (r : Result (Option User))
      → SameRoles s (continue (r, s) (create_if_new c bcrypt dto id)).1
        ⊎ (role_lists (continue (r, s) (create_if_new c bcrypt dto id)).1.users
            ≡ role_lists s.users ++ (new_user bcrypt dto id).roles ∷ [])
  create_if_new-role_lists bcrypt dto id s (err e) = inl refl
  create_if_new-role_lists bcrypt dto id s (ok (some u)) = inl refl
  create_if_new-role_lists bcrypt dto id s (ok none) = save-role_lists s (new_user bcrypt dto id)

  -- `create` adds one user at most, with the roles of the DTO or the default.
  pub create-role_lists :
      (bcrypt : Bcrypt) (dto : CreateUserDto) (id : String) (s : Users)
      → SameRoles s (create c bcrypt dto id s).1
        ⊎ (role_lists (create c bcrypt dto id s).1.users
            ≡ role_lists s.users ++ (new_user bcrypt dto id).roles ∷ [])
  unfolding create
  create-role_lists bcrypt dto id s =
      rw
        (rethrow_state (keep_conflict "사용자 생성 중 오류가 발생했습니다")
          ((lookup_email c dto.email >>= create_if_new c bcrypt dto id) s))
        (create_if_new-role_lists bcrypt dto id s (c.find_one (λ u. u.email == dto.email) s.users))
