-- ===== src/Http/Parse.antt =====
-- include/slayer_http_parse.h: the state of a request that is being parsed, and
-- `slayer_http_request_parse_init`. The method and URI buffers are the bytes written so far; the
-- receive buffer is an argument of the two parsers.
use dbslayer.Prelude.{ℕ, List, [], Bytes}

pub data RequestState : Type 0 where
  start ws_before_uri request_method request_uri ws_before_protocol : RequestState
  protocol_ht protocol_htt protocol_http protocol_http_slash : RequestState
  protocol_http_major protocol_http_major_dot protocol_http_major_dot_minor : RequestState
  done_cr done_lf done : RequestState

pub data HttpMethod : Type 0 where
  get post : HttpMethod

pub data HttpVersion : Type 0 where
  http_10 http_11 : HttpVersion

pub data HeaderState : Type 0 where
  header_start header_name header_start_lf space_before_value : HeaderState
  header_value space_after_value header_done_lf header_done : HeaderState

pub record Header : Type 0 where
  pub name : Bytes
  pub value : Bytes

-- The chain from `headers` to `headers_tail` is the list `headers`.
pub record Parse : Type 0 where
  pub request_state : RequestState
  pub method_string : Bytes
  pub uri_data_size : ℕ
  pub uri : Bytes
  pub method : HttpMethod
  pub version : HttpVersion
  pub header_state : HeaderState
  pub headers : List Header
  pub name : Bytes
  pub value : Bytes
  pub header_bytes_read : ℕ

-- `apr_pcalloc` leaves every enumeration at its first value and every size at 0.
abbrev pub request_parse_init : ℕ → Parse
request_parse_init uri_size = record {
  request_state = start;
  method_string = [];
  uri_data_size = uri_size;
  uri = [];
  method = get;
  version = http_10;
  header_state = header_start;
  headers = [];
  name = [];
  value = [];
  header_bytes_read = 0;
}
