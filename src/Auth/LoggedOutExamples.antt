-- ===== src/Auth/LoggedOutExamples.antt =====
-- A token after its logout, and the statuses of answers: tests, and the theorems at concrete inputs.
use msa_tuto_server.Base.{◌≡◌, refl, some, List, [], ◌∷◌, arith, Bool-cases}
use msa_tuto_server.Http.{ok}
use msa_tuto_server.Auth.Users.{admin}
use msa_tuto_server.Auth.Tokens.{logout, validate_jwt_token}
use msa_tuto_server.Auth.Memory.{Keys}
use msa_tuto_server.Auth.TokenExamples.{payload}
use msa_tuto_server.Auth.Session.{Store}
use msa_tuto_server.Auth.Guards.{
  jwt_guard, roles_guard, handle_answer, strategy_validate, auth_token,
}
use msa_tuto_server.Auth.Server.{
  post_login, post_logout, post_role, Call, logged_out, authenticated, handle, serve,
}
use msa_tuto_server.Http.Reports.{Requested}
use msa_tuto_server.Auth.Edge.{due_status}
use msa_tuto_server.Auth.Refused.{IsRefused}
use msa_tuto_server.Auth.LoggedOut.{logout_for_good}
use msa_tuto_server.Auth.ServerExamples.{platform, start, draw, next_draw}

abbrev leaving : Call
leaving = record { draw = draw; header = some "Bearer a1"; request = post_logout }

abbrev left : Store Keys
left = (handle platform leaving start).1

leaving_done : handle platform leaving start ≡ (ok logged_out, left)
unfolding handle authenticated jwt_guard handle_answer strategy_validate auth_token
    validate_jwt_token logout Bool-cases
leaving_done = refl

-- In between, the user logs in again, and tries to log out a second time.
abbrev between : List Call
between =
    record {
      draw = draw;
      header = some "Bearer a1";
      request = post_login "ann@example.com" "secret";
    }
    ∷ leaving
    ∷ []

abbrev returning : Call
returning = record { draw = next_draw; header = some "Bearer a1"; request = post_role "u1" admin }

logout_for_good_example : IsRefused (handle platform returning) (serve platform between left)
unfolding auth_token
logout_for_good_example =
    logout_for_good platform leaving between returning payload 100 start left refl refl refl
      leaving_done (omega arith) refl tt

abbrev post_request : Requested
post_request = record { method = "POST"; url = "/users/u1/roles" }

returning_forbidden : due_status 201 (handle platform returning start).0 ≡ 403
unfolding handle authenticated jwt_guard handle_answer strategy_validate roles_guard auth_token
    validate_jwt_token Bool-cases
returning_forbidden = refl
