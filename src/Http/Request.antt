-- ===== src/Http/Request.antt =====
-- HttpRequest of mingfwq/http/http.h and mingfwq/http/http.cpp. The methods that read or set one member
-- are the fields of the record; a method of a map acts through the functions on maps.
pub mod Maps
pub mod Dump
use mingfwq.Prelude.{is_empty, mark, ℕ, ◌++◌, Bool, Option, List, [], codes, if◌then◌else◌}
use mingfwq.Http.{Field, assign, erase, get_field, has_field}
use mingfwq.Http.Method.{http_method_to_string}
use mingfwq.Http.Printing.{crlf, version_text, connection_text, print_headers, print_length}

pub record HttpRequest : Type 0 where
  pub method : ℕ
  pub version : ℕ
  pub close : Bool
  pub path : List ℕ
  pub query : List ℕ
  pub fragment : List ℕ
  pub body : List ℕ
  pub headers : List Field
  pub params : List Field
  pub cookies : List Field

-- HttpRequest::HttpRequest: a GET of the root.
pub make_http_request : ℕ → Bool → HttpRequest
make_http_request version close = record {
  method = 1;
  version = version;
  close = close;
  path = codes "/";
  query = [];
  fragment = [];
  body = [];
  headers = [];
  params = [];
  cookies = [];
}

-- getHeader, getParam and getCookie
pub get_header : List ℕ → List ℕ → HttpRequest → List ℕ
unfolding get_field
get_header key def r = get_field key def r.headers

pub get_param : List ℕ → List ℕ → HttpRequest → List ℕ
unfolding get_field
get_param key def r = get_field key def r.params

pub get_cookie : List ℕ → List ℕ → HttpRequest → List ℕ
unfolding get_field
get_cookie key def r = get_field key def r.cookies

-- setHeader, setParam and setCookie
unfoldable pub set_header : List ℕ → List ℕ → HttpRequest → HttpRequest
set_header key val r = record r { headers = assign key val r.headers }

pub set_param : List ℕ → List ℕ → HttpRequest → HttpRequest
set_param key val r = record r { params = assign key val r.params }

pub set_cookie : List ℕ → List ℕ → HttpRequest → HttpRequest
set_cookie key val r = record r { cookies = assign key val r.cookies }

-- delHeader, delParam and delCookie
pub del_header : List ℕ → HttpRequest → HttpRequest
del_header key r = record r { headers = erase key r.headers }

pub del_param : List ℕ → HttpRequest → HttpRequest
del_param key r = record r { params = erase key r.params }

pub del_cookie : List ℕ → HttpRequest → HttpRequest
del_cookie key r = record r { cookies = erase key r.cookies }

-- hasHeader, hasParam and hasCookie
pub has_header : List ℕ → Option (List ℕ) → HttpRequest → Bool × Option (List ℕ)
unfolding has_field
has_header key val r = has_field key val r.headers

pub has_param : List ℕ → Option (List ℕ) → HttpRequest → Bool × Option (List ℕ)
unfolding has_field
has_param key val r = has_field key val r.params

pub has_cookie : List ℕ → Option (List ℕ) → HttpRequest → Bool × Option (List ℕ)
unfolding has_field
has_cookie key val r = has_field key val r.cookies

-- The first line of dump, without its end.
unfoldable pub request_line : HttpRequest → List ℕ
request_line r =
    http_method_to_string r.method
    ++ (codes " "
        ++ (r.path
            ++ (mark (codes "?") r.query
                ++ (r.query
                    ++ (mark (codes "#") r.fragment
                        ++ (r.fragment ++ (codes " " ++ version_text r.version)))))))

-- The end of dump.
unfoldable pub request_end : List ℕ → List ℕ
request_end body = if is_empty body then crlf else print_length body ++ (crlf ++ (body ++ crlf))

-- dump and toString
unfoldable pub request_dump : HttpRequest → List ℕ
unfolding request_line request_end
request_dump r =
    request_line r
    ++ (crlf
        ++ (codes "connection: "
            ++ (connection_text r.close
                ++ (crlf ++ (print_headers (codes ":") r.headers ++ request_end r.body)))))
