-- ===== src/Http/Response.antt =====
-- HttpResponse of mingfwq/http/http.h and mingfwq/http/http.cpp.
pub mod Dump
use mingfwq.Prelude.{is_empty, ℕ, ◌++◌, Bool, List, [], codes, if◌then◌else◌}
use mingfwq.Prelude.Decimal.{decimal}
use mingfwq.Http.{Field, assign, erase, get_field}
use mingfwq.Http.Method.{http_status_to_string}
use mingfwq.Http.Printing.{crlf, version_text, connection_text, print_headers, print_length}

pub record HttpResponse : Type 0 where
  pub status : ℕ
  pub version : ℕ
  pub close : Bool
  pub body : List ℕ
  pub reason : List ℕ
  pub headers : List Field

-- HttpResponse::HttpResponse: the status is OK.
unfoldable pub make_http_response : ℕ → Bool → HttpResponse
make_http_response version close = record {
  status = 200;
  version = version;
  close = close;
  body = [];
  reason = [];
  headers = [];
}

-- getHeader
pub get_response_header : List ℕ → List ℕ → HttpResponse → List ℕ
unfolding get_field
get_response_header key def r = get_field key def r.headers

-- setHeader
unfoldable pub set_response_header : List ℕ → List ℕ → HttpResponse → HttpResponse
set_response_header key val r = record r { headers = assign key val r.headers }

-- delHeader
pub del_response_header : List ℕ → HttpResponse → HttpResponse
del_response_header key r = record r { headers = erase key r.headers }

-- The first line of dump, without its end.
unfoldable pub status_line : HttpResponse → List ℕ
status_line r =
    version_text r.version
    ++ (codes " "
        ++ (decimal r.status
            ++ (codes " "
                ++ (if is_empty r.reason then http_status_to_string r.status else r.reason))))

-- The end of dump.
unfoldable pub response_end : List ℕ → List ℕ
response_end body = if is_empty body then crlf else print_length body ++ (crlf ++ body)

-- dump and toString
unfoldable pub response_dump : HttpResponse → List ℕ
unfolding status_line response_end
response_dump r =
    status_line r
    ++ (crlf
        ++ (print_headers (codes ": ") r.headers
            ++ (codes "connection: "
                ++ (connection_text r.close ++ (crlf ++ response_end r.body)))))
