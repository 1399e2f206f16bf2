-- ===== src/Server/Response.antt =====
-- common/slayer_http_server.c: `slayer_http_handle_response`, up to the queue of the writing threads. The
-- date is an argument, and a size is the length of the text, so that it never wraps.
pub mod Lines
mod Tests
use dbslayer.Prelude.{
  ℕ, ◌+◌, ◌%◌, ◌^◌, [], ◌∷◌, ◌++◌, Bytes, codes, ◌==◌, if◌then◌else◌, Option, none, some, length,
  take,
}
use dbslayer.Json.Value.{pos}
use dbslayer.Json.Print.{print_long}
use dbslayer.Json.Scan.{until_nul}

abbrev pub response_code_lookup : ℕ → Bytes
response_code_lookup code =
    if code == 200
    then codes "200 OK"
    else if code == 401
    then codes "401 Unauthorized"
    else if code == 403
    then codes "403 Forbidden"
    else if code == 404
    then codes "404 Not Found"
    else codes "500 Internal Server Error"

-- what a response is made of besides its text
pub record Reply : Type 0 where
  pub response_code : ℕ
  pub date : Bytes
  pub server_name : Bytes
  pub mime_type : Bytes

abbrev pub crlf : Bytes
crlf = 0x0d ∷ 0x0a ∷ []

-- `apr_psprintf` of the counter, after it was incremented
abbrev pub request_id : ℕ → Bytes
request_id counter = codes "dbslayer-" ++ print_long (pos counter)

-- the text that is sent: all of it for a negative size, and else its first bytes
abbrev pub body_of : Option ℕ → Bytes → Bytes
body_of none message = until_nul message
body_of (some size) message = take size message

unfoldable pub header_text : Reply → ℕ → ℕ → Bytes
header_text r counter body_size =
    codes "HTTP/1.0 "
    ++ (response_code_lookup r.response_code
        ++ (crlf
            ++ (codes "Date: "
                ++ (r.date
                    ++ (crlf
                        ++ (codes "Server: "
                            ++ (r.server_name
                                ++ (crlf
                                    ++ (codes "X-Request-ID: "
                                        ++ (request_id counter
                                            ++ (crlf
                                                ++ (codes "Content-type: "
                                                    ++ (r.mime_type
                                                        ++ (crlf
                                                            ++ (codes "Content-Length: "
                                                            ++ (print_long (pos body_size)
                                                            ++ (crlf
                                                            ++ (codes "Connection: close"
                                                            ++ (crlf ++ crlf)))))))))))))))))))

-- the bytes that are queued, and the counter of requests
unfoldable pub handle_response : Reply → Option ℕ → Bytes → ℕ → Bytes × ℕ
unfolding header_text
handle_response r message_size message counter =
    let next = (counter + 1) % 2 ^ 32 in
    let body = body_of message_size message in (header_text r next (length body) ++ body, next)
