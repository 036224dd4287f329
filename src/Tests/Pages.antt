-- ===== src/Tests/Pages.antt =====
-- The theorems on app/http/src/app.cc at concrete inputs.
use lute.Prelude.{
  none, [], true, false, some, Returns, arith, ◌++◌, replicate, ◌≡◌, ◌↔◌, ◌≤◌, length, ◌+◌,
}
use lute.Http.Bytes.{codes, Bytes, equal}
use lute.Http.Request.{HttpRequest, Method}
use lute.Http.Request
use lute.Http.Response.{HttpResponse}
use lute.Http.Response
use lute.App.{Application, Services, on_request, contains, c_string}
use lute.App.Routes.{on_request-overflow_iff, is_picture, Answer, on_request-Answer}

-- Every file is there and holds the same bytes, and no user is known.
abbrev bare_services : Services
bare_services = record {
  stat = λ name. some (record { others_read = true; is_directory = false });
  open_file = λ name. some (codes "<html>");
  has_field = λ user. false;
  get_field = λ user. [];
  execute_fails = λ statement. false;
  match_register = λ body. ([], [], []);
  match_login = λ query. ([], []);
}

abbrev site : Application
site = record { real_file = []; server_path = codes "/srv"; statements = []; fields_set = [] }

abbrev get_index : HttpRequest
get_index = record Request.init { method = Method.get; path = codes "/" }

on_request-Answer_example :
    Returns
      (on_request bare_services get_index site (Response.init false))
      (Answer bare_services site (Response.init false))
on_request-Answer_example =
    on_request-Answer bare_services get_index site (Response.init false) (omega arith) (omega arith)
      (omega arith)

abbrev long_path : Bytes
long_path = codes "/" ++ (replicate 200 b'a' ++ codes ".jpg")

abbrev get_picture : HttpRequest
get_picture = record Request.init { method = Method.get; path = long_path }

on_request-overflow_example :
    (on_request bare_services get_picture site (Response.init false) ≡ none) ↔ (
      (is_picture get_picture ≡ true)
      × (200 ≤ length (c_string site.server_path) + length (c_string get_picture.path)))
unfolding equal contains c_string
on_request-overflow_example =
    on_request-overflow_iff bare_services get_picture site (Response.init false) (omega arith)
      (omega arith)
