-- ===== src/Http/PlainErrors.antt =====
-- Errors as NestJS presents them, as far as concrete inputs need it.
use msa_tuto_server.Base.{String, refl, none}
use msa_tuto_server.Http.{
  Exception, bad_request, unauthorized, forbidden, not_found, conflict, request_timeout, internal,
  failure,
}
use msa_tuto_server.Http.Reports.{documented_status, Errors, Requested}

abbrev pub message_text : Exception → String
message_text (bad_request m) = m
message_text (unauthorized m) = m
message_text (forbidden m) = m
message_text (not_found m) = m
message_text (conflict m) = m
message_text (request_timeout m) = m
message_text (internal m) = m
message_text (failure m) = m

abbrev pub plain_errors : Errors
plain_errors = record {
  get_status = documented_status;
  get_status_law = λ e. refl;
  message = message_text;
  name = λ e. "Error";
  response_message = λ e. none;
  response_error = λ e. none;
}

abbrev pub get_rewards_request : Requested
get_rewards_request = record { method = "GET"; url = "/rewards" }
