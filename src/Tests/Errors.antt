-- ===== src/Tests/Errors.antt =====
-- The theorem on replies at a concrete input.
use nestjs_team_tasks_api.Prelude.{ℕ, String, Option, none, some, ◌≡◌, refl, nat_eqb, if◌then◌else◌}
use nestjs_team_tasks_api.Exec.{
  Failure, conflict, forbidden, not_found, unauthorized, service_unavailable, query_failed,
  other_error,
}
use nestjs_team_tasks_api.Errors.Filter.{
  Exception, http_exception, other_exception, object, text, in_words, catch_exception,
}
use nestjs_team_tasks_api.Errors.Replies.{NestLaws, expected, catch_exception-expected}

abbrev http_status : ℕ → Option String
http_status status = if nat_eqb status 500 then some "INTERNAL_SERVER_ERROR" else none

abbrev thrown : Failure → Exception
thrown (conflict m) = http_exception 409 (object (text m) (text "Conflict"))
thrown (forbidden m) = http_exception 403 (object (text m) (text "Forbidden"))
thrown (not_found m) = http_exception 404 (object (text m) (text "Not Found"))
thrown (unauthorized m) = http_exception 401 (object (text m) (text "Unauthorized"))
thrown (service_unavailable m) = http_exception 503 (object (text m) (text "Service Unavailable"))
thrown (query_failed code) = other_exception
thrown (other_error m) = other_exception

nest_laws : NestLaws http_status thrown
nest_laws = record {
  conflict_is = λ m. refl;
  forbidden_is = λ m. refl;
  not_found_is = λ m. refl;
  unauthorized_is = λ m. refl;
  service_unavailable_is = λ m. refl;
  query_failed_is = λ code. refl;
  other_error_is = λ m. refl;
  name_of_500 = refl;
}

catch_exception-expected_example :
    catch_exception http_status "now" "/tasks" (thrown (query_failed "23505"))
    ≡ expected (query_failed "23505") "now" "/tasks"
catch_exception-expected_example =
    catch_exception-expected http_status thrown nest_laws "now" "/tasks" (query_failed "23505")

words_of_404 : in_words "NOT_FOUND" ≡ "Not Found"
unfolding in_words
words_of_404 = refl
