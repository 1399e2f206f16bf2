-- ===== src/Server/Response/Tests.antt =====
-- A response, and an application of the theorem about it.
use dbslayer.Prelude.{◌≡◌, refl, false, [], ◌++◌, codes, none, some, arith}
use dbslayer.Json.Print.{print_long, digits}
use dbslayer.Json.Scan.{until_nul}
use dbslayer.Server.Response.{Reply, crlf, handle_response, header_text}
use dbslayer.Server.Response.Lines.{read_head, lines_of, read_head-handle_response}

abbrev reply : Reply
reply = record {
  response_code = 404;
  date = codes "Thu, 26 Nov 2026 05:00:00 GMT";
  server_name = codes "dbslayer";
  mime_type = codes "text/plain";
}

response_lem : handle_response (record reply { date = [] }) none (codes "no") 6 ≡ (
  codes "HTTP/1.0 404 Not Found"
      ++ crlf
      ++ codes "Date: "
      ++ crlf
      ++ codes "Server: dbslayer"
      ++ crlf
      ++ codes "X-Request-ID: dbslayer-7"
      ++ crlf
      ++ codes "Content-type: text/plain"
      ++ crlf
      ++ codes "Content-Length: 2"
      ++ crlf
      ++ codes "Connection: close"
      ++ crlf
      ++ crlf
      ++ codes "no",
  7,
)
unfolding handle_response header_text print_long digits until_nul
response_lem = refl

read_head-handle_response_example :
    read_head [] false (handle_response reply none (codes "no such file") 41).0
    ≡ some (lines_of reply 42 12, codes "no such file")
unfolding until_nul
read_head-handle_response_example =
    read_head-handle_response reply none (codes "no such file") 41 (ground arith) (ground arith)
      (ground arith)
