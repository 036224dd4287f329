-- ===== src/App.antt =====
-- app/http/src/app.cc: the pages of the application. The file system, Redis, MySQL and the regular
-- expressions are parameters. `none` is a write past the end of the file name's array.
pub mod Routes
use lute.Prelude.{
  zero, suc, ◌>>◌, none, assert, ◌++◌, ℕ, Bool, Option, List, if◌then◌else◌, ◌>>=◌, ◌∷◌, true, not,
  some, false, ◌&&◌, ◌||◌, ◌==◌, [], ltb, length, suc,
}
use lute.Http.Bytes.{Bytes, codes, equal}
use lute.Http.Request.{HttpRequest, Method}
use lute.Http.Response.{HttpResponse, HttpStatusCode, add_header, set_content_type}

abbrev pub filename_len : ℕ
filename_len = 200

-- What stat(2) says that the code reads: S_IROTH and S_ISDIR.
pub record FileStat : Type 0 where
  pub others_read : Bool
  pub is_directory : Bool

-- What the application calls and does not implement.
pub record Services : Type 0 where
  pub stat : Bytes → Option FileStat
  -- The file's bytes, if it can be opened.
  pub open_file : Bytes → Option Bytes
  pub has_field : Bytes → Bool
  pub get_field : Bytes → Bytes
  -- Whether the statement failed, `rc_`.
  pub execute_fails : Bytes → Bool
  -- The groups of the last match, empty where there is none.
  pub match_register : Bytes → Bytes × Bytes × Bytes
  pub match_login : Bytes → Bytes × Bytes

pub record Application : Type 0 where
  pub real_file : Bytes
  pub server_path : Bytes
  -- The statements sent to MySQL and the fields set in Redis, oldest first.
  pub statements : List Bytes
  pub fields_set : List (Bytes × Bytes)

-- What `strcpy` and `strcat` copy of a `c_str()`.
unfoldable pub c_string : Bytes → Bytes
c_string [] = []
c_string (zero ∷ xs) = []
c_string (suc x ∷ xs) = suc x ∷ c_string xs

-- `strcpy(realFile_, serverPath_.c_str()); strcat(realFile_, suffix);` with the terminator.
unfoldable pub set_real_file : Bytes → Application → Option Application
unfolding c_string
set_real_file suffix app = do
  let file = c_string app.server_path ++ c_string suffix
  assert (ltb (length file) filename_len)
  some (record app { real_file = file })

-- `std::string::find(…) != npos`
unfoldable pub starts_with : Bytes → Bytes → Bool
starts_with [] ys = true
starts_with (x ∷ xs) [] = false
starts_with (x ∷ xs) (y ∷ ys) = x == y && starts_with xs ys

unfoldable pub contains : Bytes → Bytes → Bool
unfolding starts_with
contains pattern_ [] = starts_with pattern_ []
contains pattern_ (y ∷ ys) = starts_with pattern_ (y ∷ ys) || contains pattern_ ys

-- The four calls that most branches begin with.
unfoldable pub ok_page : Bytes → HttpResponse → HttpResponse
unfolding set_content_type add_header
ok_page content_type resp = add_header (codes "Server") (codes "Lux polaris") (
    set_content_type content_type
      (record resp { status_code = HttpStatusCode.ok; status_message = codes "OK" }))

is_post : Method → Bool
is_post Method.post = true
is_post Method.invalid = false
is_post Method.get = false
is_post Method.head = false
is_post Method.put = false
is_post Method.delete = false

is_get : Method → Bool
is_get Method.get = true
is_get Method.invalid = false
is_get Method.post = false
is_get Method.head = false
is_get Method.put = false
is_get Method.delete = false

module _ (services : Services) where
  open services use {
    stat, open_file, has_field, get_field, execute_fails, match_register, match_login,
  }

  unfoldable pub read_file_to_string : Bytes → Bytes
  read_file_to_string filename = elim (open_file filename) [ none ↦ [] | some bytes ↦ bytes ]

  unfoldable pub get_html : Application → Bytes
  unfolding read_file_to_string
  get_html app = elim (stat app.real_file) [
    | none ↦ []
    | some st ↦
        if not st.others_read
        then []
        else if st.is_directory
        then []
        else read_file_to_string app.real_file
  ]

  -- `strcpy`, `strcat` and `resp->setBody(getHtml())`.
  unfoldable pub page : Bytes → Application → HttpResponse → Option (Application × HttpResponse)
  unfolding set_real_file get_html
  page suffix app resp = do
    app' ← set_real_file suffix app
    some (app', record resp { body = get_html app' })

  unfoldable pub insert_statement : Bytes → Bytes → Bytes → Bytes
  insert_statement username mail password =
      codes "INSERT INTO user(username, mail, passwd) VALUES('"
      ++ (username ++ (codes "', '" ++ (mail ++ (codes "', '" ++ (password ++ codes "')")))))

  -- The posted form of `/register`. Where the statement fails, the file name stays what it was.
  unfoldable pub register_user : Bytes → Application → Option Application
  unfolding set_real_file insert_statement
  register_user body app =
      let (username, mail, password) = match_register body in
      let statement = insert_statement username mail password in
      if not (has_field username)
      then (let executed = record app { statements = app.statements ++ statement ∷ [] } in
          if not (execute_fails statement)
          then set_real_file (codes "/welcome.html")
              (record executed { fields_set = executed.fields_set ++ (username, password) ∷ [] })
          else some executed)
      else set_real_file (codes "/registerFailed.html") app

  unfoldable pub register :
      HttpRequest → Application → HttpResponse → Option (Application × HttpResponse)
  unfolding register_user get_html ok_page is_post
  register req app resp =
      (if is_post req.method && ltb 0 (length req.body)
        then register_user req.body app
        else set_real_file (codes "/register.html") app)
      >>= λ app'. some (app', record (ok_page (codes "text/html") resp) { body = get_html app' })

  -- A picture. Its early returns leave the response with no body.
  unfoldable pub picture :
      HttpRequest → Application → HttpResponse → Option (Application × HttpResponse)
  unfolding set_real_file ok_page
  picture req app resp = do
    let headed = ok_page (codes "image/jpg") resp
    app' ← set_real_file req.path app
    some (
      app',
      elim (stat app'.real_file) [
        | none ↦ headed
        | some st ↦
            if not st.others_read || st.is_directory
            then headed
            else record headed { body = read_file_to_string app'.real_file }
      ],
    )

  unfoldable pub login :
      HttpRequest → Application → HttpResponse → Option (Application × HttpResponse)
  unfolding page ok_page equal
  login req app resp =
      let (username, passwd) = match_login req.query in
      let headed = ok_page (codes "text/html") resp in
      if has_field username
      then (if equal (get_field username) passwd
          then page (codes "/welcome.html") app headed
          else page (codes "/loginFailed.html") app headed)
      else page (codes "/loginFailed.html") app headed

  unfoldable pub not_found : Application → HttpResponse → Option (Application × HttpResponse)
  unfolding page set_content_type add_header
  not_found app resp =
      page (codes "/404.html") app (
        add_header (codes "Server") (codes "Lux polaris") (
          set_content_type (codes "text/html") (record resp {
            status_code = HttpStatusCode.not_found;
            status_message = codes "Not Found";
          })))
      >>= λ r. some (r.0, record (r.1) { close_connection = true })

  unfoldable pub on_request :
      HttpRequest → Application → HttpResponse → Option (Application × HttpResponse)
  unfolding page register picture login not_found contains equal ok_page is_get
  on_request req app resp =
      if equal req.path (codes "/") || equal req.path (codes "/index.html")
      then page (codes "/index.html") app (ok_page (codes "text/html") resp)
      else if equal req.path (codes "/register")
      then register req app resp
      else if equal req.path (codes "/welcome")
      then page (codes "/welcome.html") app (ok_page (codes "text/html") resp)
      else if contains (codes ".jpg") req.path
      then picture req app resp
      else if is_get req.method && contains (codes "/login") req.path
      then login req app resp
      else not_found app resp
