-- ===== src/Errors/Filter.antt =====
-- src/common/filters/http-exception.filter.ts: the reply to a request whose handler threw. The names of
-- the statuses, an enum of NestJS, are a parameter, and so are the time and the request's path; the log
-- line is left out.
use nestjs_team_tasks_api.Prelude.{ℕ, String, Option, none, some, List, map, nat_eqb, if◌then◌else◌}
use nestjs_team_tasks_api.Js.Case.{capitalize}
use nestjs_team_tasks_api.Js.Split.{split, join}

-- a property of an exception's response, as far as the filter tells its values apart
pub data Property : Type 0 where
  text : String → Property
  texts : List String → Property
  other_value : Property

-- `exception.getResponse()`: a text, an object with its `message` and `error`, or another value
pub data ExceptionResponse : Type 0 where
  plain : String → ExceptionResponse
  object : Property → Property → ExceptionResponse
  other_response : ExceptionResponse

-- what a handler throws: an `HttpException` with its status and response, or anything else
pub data Exception : Type 0 where
  http_exception : ℕ → ExceptionResponse → Exception
  other_exception : Exception

-- `string | string[]`
pub data Message : Type 0 where
  one : String → Message
  many : List String → Message

pub record NormalizedErrorBody : Type 0 where
  pub status_code : ℕ
  pub message : Message
  pub error : String
  pub timestamp : String
  pub path : String

pub record Reply : Type 0 where
  pub status : ℕ
  pub body : NormalizedErrorBody

abbrev pub internal_server_error : ℕ
internal_server_error = 500

abbrev pub or_error : Option String → String
or_error (some name) = name
or_error none = "Error"

-- "NOT_FOUND" in words
unfoldable pub in_words : String → String
unfolding split capitalize
in_words status_text = join " " (map capitalize (split b'_' status_text))

abbrev pub message_of_property : Property → String → Message
message_of_property (text s) otherwise = one s
message_of_property (texts ss) otherwise = many ss
message_of_property other_value otherwise = one otherwise

abbrev pub error_of_property : Property → String → String
error_of_property (text s) otherwise = s
error_of_property _ otherwise = otherwise

-- the `message` and the `error` of the body
abbrev pub normalized : ℕ → ExceptionResponse → String → Message × String
normalized status (plain s) status_text_human = (one s, status_text_human)
normalized status (object message error) status_text_human =
    (message_of_property message status_text_human, error_of_property error status_text_human)
normalized status other_response status_text_human = (
  one (if nat_eqb status internal_server_error then "Internal server error" else status_text_human),
  status_text_human,
)

module _ (http_status : ℕ → Option String) where
  unfoldable pub normalize_http_exception_response : ℕ → ExceptionResponse → Message × String
  unfolding in_words
  normalize_http_exception_response status response =
      normalized status response (in_words (or_error (http_status status)))

  abbrev pub status_of : Exception → ℕ
  status_of (http_exception status response) = status
  status_of other_exception = internal_server_error

  abbrev pub response_of : Exception → ExceptionResponse
  response_of (http_exception status response) = response
  response_of other_exception = other_response

  unfoldable pub catch_exception : String → String → Exception → Reply
  unfolding normalize_http_exception_response
  catch_exception timestamp path exception =
      let (message, error) =
        normalize_http_exception_response (status_of exception) (response_of exception) in
      record {
        status = status_of exception;
        body = record {
          status_code = status_of exception;
          message = message;
          error = error;
          timestamp = timestamp;
          path = path;
        };
      }
