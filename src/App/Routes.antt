-- ===== src/App/Routes.antt =====
-- The answers of `Application::onRequest` of app/http/src/app.cc, and the array for the file's name.
use lute.Prelude.{
  zero, suc, [], true, false, some, none, ◌≡◌, Returns, ◌⊎◌, length, ◌+◌, ◌≤◌, true, arith, ◌<◌,
  length-append, ◌∷◌, suc, assert->>, lt→ltb, ◌++◌, Returns->>=, refl, Bool, inl, inr, Bool-cases,
  if◌then◌else◌, ◌&&◌, ltb, ◌||◌, not, Option, le→ltb-false, ◌↔◌, ℕ, subst, ltb→lt, ltb-false→le,
}
use lute.App.{
  Application, Services, on_request, c_string, set_real_file, page, picture, register,
  register_user, login, not_found, ok_page, get_html, read_file_to_string, insert_statement,
  is_post, contains, is_get, FileStat, filename_len,
}
use lute.Http.Bytes.{Bytes, codes, equal}
use lute.Http.Request.{HttpRequest}
use lute.Http.Response.{HttpResponse, HttpStatusCode}

-- The longest of the fixed pages' names has 20 bytes.
abbrev pub Fits : Bytes → Application → Type 0
Fits suffix app = length app.server_path + length suffix < 200

-- The name fits its array, and the root of the pages is the same.
abbrev pub Named : Application → Application → Type 0
Named app app' = (app'.server_path ≡ app.server_path) × (length app'.real_file < 200)

-- A page, or the 404 page and a close.
abbrev pub Status : HttpResponse → HttpResponse → Type 0
Status before r =
    ((r.status_code ≡ HttpStatusCode.ok) × (r.close_connection ≡ before.close_connection))
    ⊎ ((r.status_code ≡ HttpStatusCode.not_found) × (r.close_connection ≡ true))

length-c_string : (xs : Bytes) → length (c_string xs) ≤ length xs
unfolding c_string
length-c_string [] = omega arith
length-c_string (zero ∷ xs) = omega arith
length-c_string (suc x ∷ xs) = omega (arith, length-c_string xs)

-- The bytes that `strcpy` and `strcat` write, without the last zero, fit the array.
abbrev pub ShortName : Bytes → Application → Type 0
ShortName suffix app = length (c_string app.server_path) + length (c_string suffix) < 200

Fits-ShortName : (suffix : Bytes) (app : Application) → Fits suffix app → ShortName suffix app
Fits-ShortName suffix app h = omega (arith, length-c_string app.server_path, length-c_string suffix)

name-Named :
    (suffix : Bytes) (app : Application)
    → ShortName suffix app
    → Returns (set_real_file suffix app) (Named app)
unfolding set_real_file
name-Named suffix app h = assert->> _ _ _ (lt→ltb _ _ short) (refl, short)
  where
    short : length (c_string app.server_path ++ c_string suffix) < 200
    short = omega (arith, length-append (c_string app.server_path) (c_string suffix))

set_real_file-Named :
    (suffix : Bytes) (app : Application)
    → Fits suffix app
    → Returns (set_real_file suffix app) (Named app)
set_real_file-Named suffix app h = name-Named suffix app (Fits-ShortName suffix app h)

-- The route of a picture.
abbrev pub is_picture : HttpRequest → Bool
is_picture req =
    not (equal req.path (codes "/") || equal req.path (codes "/index.html"))
    && (not (equal req.path (codes "/register"))
        && (not (equal req.path (codes "/welcome")) && contains (codes ".jpg") req.path))

module _ (services : Services) where
  -- The body is what `getHtml` makes of the named file; a picture's is its bytes, or what it was.
  abbrev pub Body : Application → HttpResponse → HttpResponse → Type 0
  Body app before r =
      (r.body ≡ get_html services app)
      ⊎ (r.body ≡ before.body)
      ⊎ (r.body ≡ read_file_to_string services app.real_file)

  abbrev pub Answer : Application → HttpResponse → Application × HttpResponse → Type 0
  Answer app before r = Named app r.0 × Status before r.1 × Body r.0 before r.1

  -- A page of the application, over a response whose line and headers stand.
  ok_page-Answer :
      (suffix : Bytes) (app : Application) (content_type : Bytes) (resp : HttpResponse)
      → Fits suffix app
      → Returns (page services suffix app (ok_page content_type resp)) (Answer app resp)
  unfolding page ok_page
  ok_page-Answer suffix app content_type resp h =
      Returns->>= (Named app) _ (set_real_file suffix app) _ (set_real_file-Named suffix app h)
        (λ app' n. (n, inl (refl, refl), inl refl))

  not_found-Answer :
      (app : Application) (resp : HttpResponse)
      → Fits (codes "/404.html") app
      → Returns (not_found services app resp) (Answer app resp)
  unfolding not_found page
  not_found-Answer app resp h =
      Returns->>=
        (λ r.
          Named app r.0
          × (r.1.status_code ≡ HttpStatusCode.not_found)
          × (r.1.body ≡ get_html services r.0))
        _ _ _
        (Returns->>= (Named app) _ (set_real_file (codes "/404.html") app) _
          (set_real_file-Named (codes "/404.html") app h) (λ app' n. (n, refl, refl)))
        (λ r n. (n.0, inr (n.1, refl), inl n.2))

  picture-Answer :
      (req : HttpRequest) (app : Application) (resp : HttpResponse)
      → ShortName req.path app
      → Returns (picture services req app resp) (Answer app resp)
  unfolding picture ok_page
  picture-Answer req app resp h =
      Returns->>= (Named app) _ (set_real_file req.path app) _ (name-Named req.path app h)
        (λ app' n. found app' n (services.stat app'.real_file))
    where
      headed : HttpResponse
      headed = ok_page (codes "image/jpg") resp

      served :
          (app' : Application)
          → Named app app'
          → (b : Bool)
          → Answer app resp (
            app',
            if b
                then headed
                else record headed { body = read_file_to_string services app'.real_file },
          )
      served app' n true = (n, inl (refl, refl), inr (inl refl))
      served app' n false = (n, inl (refl, refl), inr (inr refl))

      found :
          (app' : Application)
          → Named app app'
          → (o : Option FileStat)
          → Answer app resp (
            app',
            elim o [
              | none ↦ headed
              | some st ↦
                  if not st.others_read || st.is_directory
                  then headed
                  else record headed { body = read_file_to_string services app'.real_file }
            ],
          )
      found app' n none = (n, inl (refl, refl), inr (inl refl))
      found app' n (some st) = served app' n (not st.others_read || st.is_directory)

  login-Answer :
      (req : HttpRequest) (app : Application) (resp : HttpResponse)
      → length app.server_path + 20 < 200
      → Returns (login services req app resp) (Answer app resp)
  unfolding login
  login-Answer req app resp h =
      elim (Bool-cases (services.has_field (services.match_login req.query).0)) [
        | inl known ↦
            elim (Bool-cases (
              equal (services.get_field (services.match_login req.query).0)
                (services.match_login req.query).1)) [
                  | inl right ↦
                      rw (known, right)
                        (ok_page-Answer (codes "/welcome.html") app (codes "text/html") resp
                          (omega arith))
                  | inr wrong ↦
                      rw (known, wrong)
                        (ok_page-Answer (codes "/loginFailed.html") app (codes "text/html") resp
                          (omega arith))
                ]
        | inr unknown ↦
            rw unknown (
              ok_page-Answer (codes "/loginFailed.html") app (codes "text/html") resp (omega arith))
      ]

  -- A registration that fails in the database leaves the name of the page served before.
  register_user-Named :
      (body : Bytes) (app : Application)
      → length app.real_file < 200
      → length app.server_path + 20 < 200
      → Returns (register_user services body app) (Named app)
  unfolding register_user
  register_user-Named body app old h =
      elim (Bool-cases (services.has_field (services.match_register body).0)) [
        | inl known ↦
            rw known (set_real_file-Named (codes "/registerFailed.html") app (omega arith))
        | inr fresh ↦ elim (Bool-cases (services.execute_fails statement)) [
          | inl failed ↦ rw (fresh, failed) (refl, old)
          | inr done ↦
              rw (fresh, done)
                (set_real_file-Named (codes "/welcome.html")
                  (record app {
                    statements = app.statements ++ statement ∷ [];
                    fields_set =
                        app.fields_set
                        ++ (((services.match_register body).0, (services.match_register body).2)
                            ∷ []);
                  })
                  (omega arith))
        ]
      ]
    where
      statement : Bytes
      statement =
          insert_statement services (services.match_register body).0
            (services.match_register body).1 (services.match_register body).2

  register-Answer :
      (req : HttpRequest) (app : Application) (resp : HttpResponse)
      → length app.real_file < 200
      → length app.server_path + 20 < 200
      → Returns (register services req app resp) (Answer app resp)
  unfolding register ok_page
  register-Answer req app resp old h =
      Returns->>= (Named app) _ _ _ (chosen (is_post req.method && ltb 0 (length req.body)))
        (λ app' n. (n, inl (refl, refl), inl refl))
    where
      chosen :
          (b : Bool)
          → Returns
              (if b
                then register_user services req.body app
                else set_real_file (codes "/register.html") app)
              (Named app)
      chosen true = register_user-Named req.body app old h
      chosen false = set_real_file-Named (codes "/register.html") app (omega arith)

  -- Each route, the request for a picture having a short name.
  routed-Answer :
      (req : HttpRequest) (app : Application) (resp : HttpResponse)
      → length app.real_file < 200
      → length app.server_path + 20 < 200
      → (is_picture req ≡ true → ShortName req.path app)
      → Returns (on_request services req app resp) (Answer app resp)
  unfolding on_request
  routed-Answer req app resp old h k =
      elim (Bool-cases (equal req.path (codes "/") || equal req.path (codes "/index.html"))) [
        | inl index ↦
            rw index
              (ok_page-Answer (codes "/index.html") app (codes "text/html") resp (omega arith))
        | inr no_index ↦ elim (Bool-cases (equal req.path (codes "/register"))) [
          | inl form ↦ rw (no_index, form) (register-Answer req app resp old h)
          | inr no_form ↦ elim (Bool-cases (equal req.path (codes "/welcome"))) [
            | inl welcome ↦
                rw (no_index, no_form, welcome)
                  (ok_page-Answer (codes "/welcome.html") app (codes "text/html") resp
                    (omega arith))
            | inr no_welcome ↦
                rw (no_index, no_form, no_welcome)
                  (others no_index no_form no_welcome (contains (codes ".jpg") req.path) refl
                    (is_get req.method && contains (codes "/login") req.path))
          ]
        ]
      ]
    where
      others :
          (equal req.path (codes "/") || equal req.path (codes "/index.html")) ≡ false
          → equal req.path (codes "/register") ≡ false
          → equal req.path (codes "/welcome") ≡ false
          → (p : Bool) → contains (codes ".jpg") req.path ≡ p
          → (l : Bool)
          → Returns
              (if p
                then picture services req app resp
                else if l
                then login services req app resp
                else not_found services app resp)
              (Answer app resp)
      others i f w true e l = picture-Answer req app resp (k (rw (i, f, w, e) refl))
      others i f w false e true = login-Answer req app resp h
      others i f w false e false = not_found-Answer app resp (omega arith)

  -- Where the root, a fixed page's name and the requested path fit the array for the file's name,
  -- `onRequest` gets through: the name stays within the array and the root is the same; the
  -- response is a 200 that keeps the connection's choice, or a 404 that closes it; and its body is
  -- what `getHtml` gives for the named file, the bytes of the named picture, or what it was.
  pub on_request-Answer :
      (req : HttpRequest) (app : Application) (resp : HttpResponse)
      → length app.real_file < 200
      → length app.server_path + 20 < 200
      → length app.server_path + length req.path < 200
      → Returns (on_request services req app resp) (Answer app resp)
  on_request-Answer req app resp old h k =
      routed-Answer req app resp old h (λ p. Fits-ShortName req.path app k)

  overflow :
      (req : HttpRequest) (app : Application) (resp : HttpResponse)
      → (i f w j : Bool) → (equal req.path (codes "/") || equal req.path (codes "/index.html")) ≡ i
      → equal req.path (codes "/register") ≡ f
      → equal req.path (codes "/welcome") ≡ w
      → contains (codes ".jpg") req.path ≡ j
      → (not i && (not f && (not w && j))) ≡ true
      → 200 ≤ length (c_string app.server_path) + length (c_string req.path)
      → on_request services req app resp ≡ none
  unfolding on_request picture set_real_file
  overflow req app resp true f w j index form welcome jpg p long = cc
  overflow req app resp false true w j index form welcome jpg p long = cc
  overflow req app resp false false true j index form welcome jpg p long = cc
  overflow req app resp false false false false index form welcome jpg p long = cc
  overflow req app resp false false false true index form welcome jpg p long =
      rw (index, form, welcome, jpg, too_long) refl
    where
      too_long : ltb (length (c_string app.server_path ++ c_string req.path)) filename_len ≡ false
      too_long =
          le→ltb-false _ _
            (omega (arith, length-append (c_string app.server_path) (c_string req.path)))

  -- Where the root with the longest fixed page's name fits the array for the file's name, and the
  -- last name does: `onRequest` writes past the end of the array, on whatever route and with
  -- whatever the files, Redis and MySQL answer, if and only if the request, of any method and any
  -- client, is for a picture whose path, up to its first zero, makes a name of 200 bytes or more.
  pub on_request-overflow_iff :
      (req : HttpRequest) (app : Application) (resp : HttpResponse)
      → length app.real_file < 200
      → length app.server_path + 20 < 200
      → (on_request services req app resp ≡ none) ↔ (
          (is_picture req ≡ true)
          × (200 ≤ length (c_string app.server_path) + length (c_string req.path)))
  on_request-overflow_iff req app resp old h = (
    (λ e. aborted e (Bool-cases (is_picture req)) (Bool-cases (ltb name_len 200))),
    (λ (p, long). overflow req app resp _ _ _ _ refl refl refl refl p long),
  )
    where
      name_len : ℕ
      name_len = length (c_string app.server_path) + length (c_string req.path)

      answered :
          on_request services req app resp ≡ none
          → (is_picture req ≡ true → ShortName req.path app)
          → ⊥
      answered e k = subst (λ m. Returns m (Answer app resp)) e (routed-Answer req app resp old h k)

      aborted :
          on_request services req app resp ≡ none
          → (is_picture req ≡ true) ⊎ (is_picture req ≡ false)
          → (ltb name_len 200 ≡ true) ⊎ (ltb name_len 200 ≡ false)
          → (is_picture req ≡ true) × (200 ≤ name_len)
      aborted e (inl p) (inl short) = absurd (answered e (λ p. ltb→lt _ _ short))
      aborted e (inl p) (inr long) = (p, ltb-false→le _ _ long)
      aborted e (inr other) short = absurd (answered e (λ p. cc))
