-- ===== src/Errors/Replies.antt =====
-- What the client is told of the errors that the services throw.
use nestjs_team_tasks_api.Prelude.{ℕ, String, Option, some, ◌≡◌, refl}
use nestjs_team_tasks_api.Exec.{
  Failure, conflict, forbidden, not_found, unauthorized, service_unavailable, query_failed,
  other_error,
}
use nestjs_team_tasks_api.Errors.Filter.{
  Exception, http_exception, other_exception, object, text, one, Reply, in_words,
  normalize_http_exception_response, catch_exception,
}

-- What NestJS documents of its exceptions and of `HttpStatus`: the status and the response of each
-- class. The other errors are no `HttpException`.
pub record NestLaws (http_status : ℕ → Option String) (thrown : Failure → Exception) : Type 0 where
  pub conflict_is :
      (m : String) → thrown (conflict m) ≡ http_exception 409 (object (text m) (text "Conflict"))
  pub forbidden_is :
      (m : String) → thrown (forbidden m) ≡ http_exception 403 (object (text m) (text "Forbidden"))
  pub not_found_is :
      (m : String) → thrown (not_found m) ≡ http_exception 404 (object (text m) (text "Not Found"))
  pub unauthorized_is :
      (m : String)
      → thrown (unauthorized m) ≡ http_exception 401 (object (text m) (text "Unauthorized"))
  pub service_unavailable_is :
      (m : String)
      → thrown (service_unavailable m)
        ≡ http_exception 503 (object (text m) (text "Service Unavailable"))
  pub query_failed_is : (code : String) → thrown (query_failed code) ≡ other_exception
  pub other_error_is : (m : String) → thrown (other_error m) ≡ other_exception
  pub name_of_500 : http_status 500 ≡ some "INTERNAL_SERVER_ERROR"

-- the reply with a status, a message and the status in words
abbrev pub reply : ℕ → String → String → String → String → Reply
reply status message error timestamp path = record {
  status = status;
  body = record {
    status_code = status;
    message = one message;
    error = error;
    timestamp = timestamp;
    path = path;
  };
}

-- the reply that a client expects of an error
abbrev pub expected : Failure → String → String → Reply
expected (conflict m) = reply 409 m "Conflict"
expected (forbidden m) = reply 403 m "Forbidden"
expected (not_found m) = reply 404 m "Not Found"
expected (unauthorized m) = reply 401 m "Unauthorized"
expected (service_unavailable m) = reply 503 m "Service Unavailable"
expected (query_failed code) = reply 500 "Internal server error" "Internal Server Error"
expected (other_error m) = reply 500 "Internal server error" "Internal Server Error"

in_words_500 : in_words "INTERNAL_SERVER_ERROR" ≡ "Internal Server Error"
unfolding in_words
in_words_500 = refl

module _ (http_status : ℕ → Option String) (thrown : Failure → Exception)
    (laws : NestLaws http_status thrown) (timestamp path : String) where
  hidden :
      catch_exception http_status timestamp path other_exception
      ≡ reply 500 "Internal server error" "Internal Server Error" timestamp path
  unfolding catch_exception normalize_http_exception_response
  hidden = rw (laws.name_of_500, in_words_500) refl

  -- The filter answers each exception of NestJS that a service throws with the exception's status, its
  -- message and the name of its status. It answers every other error, a failed query too, with a 500
  -- that says "Internal server error" and nothing of the error.
  pub catch_exception-expected :
      (f : Failure)
      → catch_exception http_status timestamp path (thrown f) ≡ expected f timestamp path
  unfolding catch_exception normalize_http_exception_response
  catch_exception-expected (conflict m) = rw (laws.conflict_is m) refl
  catch_exception-expected (forbidden m) = rw (laws.forbidden_is m) refl
  catch_exception-expected (not_found m) = rw (laws.not_found_is m) refl
  catch_exception-expected (unauthorized m) = rw (laws.unauthorized_is m) refl
  catch_exception-expected (service_unavailable m) = rw (laws.service_unavailable_is m) refl
  catch_exception-expected (query_failed code) = rw (laws.query_failed_is code) hidden
  catch_exception-expected (other_error m) = rw (laws.other_error_is m) hidden
