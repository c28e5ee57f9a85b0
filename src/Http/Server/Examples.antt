-- ===== src/Http/Server/Examples.antt =====
-- A server that keeps its connections and answers every request alike, over a socket with two
-- bytes to come and a parser that takes all that is read for a head.
use mingfwq.Prelude.{ℕ, true, false, Option, none, some, length, List, [], ◌++◌, take, drop, codes}
use mingfwq.Servlet.{make_servlet_dispath}
use mingfwq.Http.Request.{make_http_request}
use mingfwq.Http.Response.{HttpResponse}
use mingfwq.Http.Session.{Parser}
use mingfwq.Http.Server.{HttpServer}

abbrev alike : HttpResponse
alike = record {
  status = 200;
  version = 17;
  close = true;
  body = [];
  reason = codes "OK";
  headers = [];
}

abbrev keeper : HttpServer
keeper = record {
  is_keepalive = true;
  name = codes "mingfwq";
  dispath = make_servlet_dispath 0;
  serve = λ req servlet res. alike;
}

-- What is to come and what was sent.
abbrev Socket : Type 0
Socket = List ℕ × List ℕ

abbrev take_in : Socket → ℕ → Option (List ℕ) × Socket
take_in s n = (some (take n s.0), (drop n s.0, s.1))

abbrev put_out : Socket → List ℕ → Option ℕ × Socket
put_out s bs = (some (length bs), (s.0, s.1 ++ bs))

abbrev whole_head : Parser ℕ
whole_head = record {
  step = λ p buffer len off. (len, p);
  finished = λ p. true;
  broken = λ p. false;
  request = λ p. make_http_request 17 true;
  lexical_cast = λ v. none;
}
