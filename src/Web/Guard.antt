-- ===== src/Web/Guard.antt =====
-- The middlewares of web/web.go: authentication, the double-submit token, and how Handler puts
-- them around the routes.
use tasker.Base.{
  Bool, true, false, not, ◌&&◌, Option, none, some, List, [], ◌∷◌, ◌++◌, String, if◌then◌else◌,
  str_eq,
}
use tasker.Web.{Method, get_method, head_method, options_method, other_method, Response, Site}
use tasker.Web.Answers.{Handler, write_error}

abbrev pub is_safe : Method → Bool
is_safe get_method = true
is_safe head_method = true
is_safe options_method = true
is_safe (other_method name) = false

-- Texts of different lengths are not equal; the time that the comparison takes is not modelled.
abbrev pub secure_string_equal : String → String → Bool
secure_string_equal a b = str_eq a b

-- The cookie is there, the header is not empty, and they are equal.
abbrev pub same_token : Option String → String → Bool
same_token none provided = false
same_token (some value) provided = not (str_eq provided "") && secure_string_equal value provided

module _ {W Q G J : Type 0} where
  abbrev pub with_cookie : String × String → Response Q G J × Site W → Response Q G J × Site W
  with_cookie c (r, s) = (record r { cookie = some c }, s)

  -- A safe request without the cookie is given one; `token` is what newCSRFToken gives.
  abbrev pub give_token :
      String
      → Option String
      → Option String
      → Response Q G J × Site W
      → Site W
      → Response Q G J × Site W
  give_token path token (some value) served s = served
  give_token path (some t) none served s = with_cookie (t, path) served
  give_token path none none served s = (write_error 500 "could not create csrf token", s)

  unfoldable pub csrf_middleware : String → Option String → Handler W Q G J → Handler W Q G J
  csrf_middleware path token next r s =
      if is_safe r.method
      then give_token path token r.csrf_cookie (next r s) s
      else (if same_token r.csrf_cookie r.csrf_header
          then next r s
          else (write_error 403 "invalid csrf token", s))

abbrev pub Wrapper : Type 0 → Type 0 → Type 0 → Type 0 → Type 0
Wrapper W Q G J = Handler W Q G J → Handler W Q G J

-- The fields of Server that Use, UseAuth and UseCSRF change, and its prefix.
pub record Server (W Q G J : Type 0) : Type 0 where
  pub middlewares : List (Wrapper W Q G J)
  pub prefix : String
  pub auth_enabled : Bool

module _ {W Q G J : Type 0} where
  abbrev pub new_server : String → Server W Q G J
  new_server prefix = record { middlewares = []; prefix = prefix; auth_enabled = false }

  abbrev pub use_middleware : Wrapper W Q G J → Server W Q G J → Server W Q G J
  use_middleware mw v = record v { middlewares = v.middlewares ++ mw ∷ [] }

  abbrev pub use_auth : Wrapper W Q G J → Server W Q G J → Server W Q G J
  use_auth mw v = use_middleware mw (record v { auth_enabled = true })

  abbrev pub cookie_path : Server W Q G J → String
  cookie_path v = if str_eq v.prefix "" then "/" else v.prefix

  abbrev pub use_csrf : Option String → Server W Q G J → Server W Q G J
  use_csrf token v = use_middleware (csrf_middleware (cookie_path v) token) v

  abbrev pub unauthorized : Handler W Q G J
  unauthorized r s = (write_error 401 "tasker management authentication is not configured", s)

  -- The loop of Handler: the first middleware is the outermost.
  abbrev pub wrap_all : List (Wrapper W Q G J) → Handler W Q G J → Handler W Q G J
  wrap_all [] h = h
  wrap_all (mw ∷ mws) h = mw (wrap_all mws h)

  unfoldable pub handler : Server W Q G J → Handler W Q G J → Handler W Q G J
  handler v mux = wrap_all v.middlewares (if v.auth_enabled then mux else unauthorized)
