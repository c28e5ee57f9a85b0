-- ===== src/Http/Session/Requests.antt =====
-- recvRequest of mingfwq/http/http_session.cpp returns, and takes bytes of the stream for every
-- request.
