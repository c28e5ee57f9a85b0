-- ===== src/Http/Method.antt =====
-- The methods and the statuses of mingfwq/http/http.h and the functions of mingfwq/http/http.cpp that
-- name them. An enumerator is its number, which a cast can make any number.
pub mod Naming
use mingfwq.Prelude.{
  ℕ, zero, suc, Bool, true, false, ◌&&◌, List, [], ◌∷◌, leb, ◌==◌, if◌then◌else◌, length, codes,
  same,
}
use mingfwq.Http.{c_str}

-- HTTP_METHOD_MAP: the number and the string of each.
abbrev pub http_method_map : List (ℕ × List ℕ)
http_method_map =
    (0, codes "DELETE")
    ∷ (1, codes "GET")
    ∷ (2, codes "HEAD")
    ∷ (3, codes "POST")
    ∷ (4, codes "PUT")
    ∷ (5, codes "CONNECT")
    ∷ (6, codes "OPTIONS")
    ∷ (7, codes "TRACE")
    ∷ (8, codes "COPY")
    ∷ (9, codes "LOCK")
    ∷ (10, codes "MKCOL")
    ∷ (11, codes "MOVE")
    ∷ (12, codes "PROPFIND")
    ∷ (13, codes "PROPPATCH")
    ∷ (14, codes "SEARCH")
    ∷ (15, codes "UNLOCK")
    ∷ (16, codes "BIND")
    ∷ (17, codes "REBIND")
    ∷ (18, codes "UNBIND")
    ∷ (19, codes "ACL")
    ∷ (20, codes "REPORT")
    ∷ (21, codes "MKACTIVITY")
    ∷ (22, codes "CHECKOUT")
    ∷ (23, codes "MERGE")
    ∷ (24, codes "M-SEARCH")
    ∷ (25, codes "NOTIFY")
    ∷ (26, codes "SUBSCRIBE")
    ∷ (27, codes "UNSUBSCRIBE")
    ∷ (28, codes "PATCH")
    ∷ (29, codes "PURGE")
    ∷ (30, codes "MKCALENDAR")
    ∷ (31, codes "LINK")
    ∷ (32, codes "UNLINK")
    ∷ (33, codes "SOURCE")
    ∷ []

-- INVALID_METHOD follows the last of the map.
abbrev pub invalid_method : ℕ
invalid_method = 34

-- HTTP_STATUS_MAP
abbrev pub http_status_map : List (ℕ × List ℕ)
http_status_map =
    (100, codes "Continue")
    ∷ (101, codes "Switching Protocols")
    ∷ (102, codes "Processing")
    ∷ (200, codes "OK")
    ∷ (201, codes "Created")
    ∷ (202, codes "Accepted")
    ∷ (203, codes "Non-Authoritative Information")
    ∷ (204, codes "No Content")
    ∷ (205, codes "Reset Content")
    ∷ (206, codes "Partial Content")
    ∷ (207, codes "Multi-Status")
    ∷ (208, codes "Already Reported")
    ∷ (226, codes "IM Used")
    ∷ (300, codes "Multiple Choices")
    ∷ (301, codes "Moved Permanently")
    ∷ (302, codes "Found")
    ∷ (303, codes "See Other")
    ∷ (304, codes "Not Modified")
    ∷ (305, codes "Use Proxy")
    ∷ (307, codes "Temporary Redirect")
    ∷ (308, codes "Permanent Redirect")
    ∷ (400, codes "Bad Request")
    ∷ (401, codes "Unauthorized")
    ∷ (402, codes "Payment Required")
    ∷ (403, codes "Forbidden")
    ∷ (404, codes "Not Found")
    ∷ (405, codes "Method Not Allowed")
    ∷ (406, codes "Not Acceptable")
    ∷ (407, codes "Proxy Authentication Required")
    ∷ (408, codes "Request Timeout")
    ∷ (409, codes "Conflict")
    ∷ (410, codes "Gone")
    ∷ (411, codes "Length Required")
    ∷ (412, codes "Precondition Failed")
    ∷ (413, codes "Payload Too Large")
    ∷ (414, codes "URI Too Long")
    ∷ (415, codes "Unsupported Media Type")
    ∷ (416, codes "Range Not Satisfiable")
    ∷ (417, codes "Expectation Failed")
    ∷ (421, codes "Misdirected Request")
    ∷ (422, codes "Unprocessable Entity")
    ∷ (423, codes "Locked")
    ∷ (424, codes "Failed Dependency")
    ∷ (426, codes "Upgrade Required")
    ∷ (428, codes "Precondition Required")
    ∷ (429, codes "Too Many Requests")
    ∷ (431, codes "Request Header Fields Too Large")
    ∷ (451, codes "Unavailable For Legal Reasons")
    ∷ (500, codes "Internal Server Error")
    ∷ (501, codes "Not Implemented")
    ∷ (502, codes "Bad Gateway")
    ∷ (503, codes "Service Unavailable")
    ∷ (504, codes "Gateway Timeout")
    ∷ (505, codes "HTTP Version Not Supported")
    ∷ (506, codes "Variant Also Negotiates")
    ∷ (507, codes "Insufficient Storage")
    ∷ (508, codes "Loop Detected")
    ∷ (510, codes "Not Extended")
    ∷ (511, codes "Network Authentication Required")
    ∷ []

-- The cascade of strcmp over the rows of a map.
pub match_string : List (ℕ × List ℕ) → List ℕ → ℕ
match_string [] m = invalid_method
match_string ((num, string) ∷ rows) m =
    let later = match_string rows m in if same string (c_str m) then num else later

-- StringToHttpMethod
pub string_to_http_method : List ℕ → ℕ
unfolding match_string
string_to_http_method m = match_string http_method_map m

-- strncmp(a, m, strlen(a)) == 0
abbrev pub starts_with : List ℕ → List ℕ → Bool
starts_with [] m = true
starts_with (a ∷ s) [] = false
starts_with (a ∷ s) (b ∷ m) = (a == b) && starts_with s m

unfoldable pub match_chars : List (ℕ × List ℕ) → List ℕ → ℕ
match_chars [] m = invalid_method
match_chars ((num, string) ∷ rows) m =
    let later = match_chars rows m in if starts_with string (c_str m) then num else later

-- CharsToHttpMethod, of the bytes from the pointer on.
unfoldable pub chars_to_http_method : List ℕ → ℕ
unfolding match_chars
chars_to_http_method m = match_chars http_method_map m

-- s_method_string[idx]
abbrev pub method_string : List (ℕ × List ℕ) → ℕ → List ℕ
method_string [] i = []
method_string ((num, string) ∷ rows) zero = string
method_string ((num, string) ∷ rows) (suc i) = method_string rows i

-- HttpMethodToString
unfoldable pub http_method_to_string : ℕ → List ℕ
http_method_to_string m =
    if leb (length http_method_map) m then codes "<unkonwn>" else method_string http_method_map m

-- The switch of HttpStatusToString.
unfoldable pub status_case : List (ℕ × List ℕ) → ℕ → List ℕ
status_case [] s = codes "<unknown>"
status_case ((code, desc) ∷ rows) s =
    let later = status_case rows s in if s == code then desc else later

-- HttpStatusToString
unfoldable pub http_status_to_string : ℕ → List ℕ
unfolding status_case
http_status_to_string s = status_case http_status_map s
