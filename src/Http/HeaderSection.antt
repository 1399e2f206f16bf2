-- ===== src/Http/HeaderSection.antt =====
-- common/slayer_http_parse.c: `check_header`, `slayer_http_header_append`, `slayer_http_header_get`
-- and `slayer_http_request_header_parse`, one function for one byte and the loop over the bytes of
-- the receive buffer that are not yet read.
pub mod Bounds
pub mod Loop
pub mod Keeps
pub mod Lines
pub mod RoundTrip
use dbslayer.Prelude.{
  ℕ, ◌+◌, ◌-◌, Bool, true, false, ◌&&◌, ◌||◌, List, [], ◌∷◌, ◌++◌, Bytes, length, Option, none,
  some, ltb, leb, ◌==◌, bytes_eq, map, if◌then◌else◌,
}
use dbslayer.Http.Parse.{
  Parse, Header, HeaderState, header_start, header_name, header_start_lf, space_before_value,
  header_value, space_after_value, header_done_lf, header_done,
}

abbrev pub max_header_bytes : ℕ
max_header_bytes = 32768

abbrev within : ℕ → ℕ → ℕ → Bool
within lo hi c = leb lo c && leb c hi

-- `tolower` in the C locale
unfoldable pub tolower : ℕ → ℕ
tolower c = if within b'A' b'Z' c then c + 32 else c

unfoldable pub check_header : ℕ → Bool
unfolding tolower
check_header c =
    within b'a' b'z' (tolower c) || c == b'_' || c == b'-' || c == b'.' || within b'0' b'9' c

abbrev pub is_blank : ℕ → Bool
is_blank c = c == b' ' || c == b'\t'

-- A buffer as a C string, which ends at its first NUL: what `apr_pstrdup` copies.
unfoldable pub c_string : Bytes → Bytes
c_string [] = []
c_string (c ∷ cs) = if c == 0 then [] else c ∷ c_string cs

-- `while (size > 0 && (value[size - 1] == ' ' || '\t')) size--`
abbrev trim_cons : ℕ → Bytes → Bytes
trim_cons c [] = if is_blank c then [] else c ∷ []
trim_cons c (d ∷ ds) = c ∷ d ∷ ds

unfoldable pub trim_end : Bytes → Bytes
trim_end [] = []
trim_end (c ∷ cs) = trim_cons c (trim_end cs)

abbrev appended : Parse → Bytes → Parse
appended p [] = p
appended p name = record p {
  headers = p.headers ++ (record { name = name; value = c_string (trim_end p.value) } ∷ []);
  name = [];
  value = [];
}

unfoldable pub header_append : Parse → Parse
header_append p = appended p p.name

-- `strcasecmp(a, b) == 0`
unfoldable pub strcaseeq : Bytes → Bytes → Bool
unfolding tolower bytes_eq
strcaseeq a b = bytes_eq (map tolower a) (map tolower b)

-- `slayer_http_header_get`, over the chain of headers
unfoldable pub header_get : Bytes → List Header → Option Bytes
header_get name [] = none
header_get name (h ∷ hs) = if strcaseeq h.name name then some h.value else header_get name hs

-- One round of the loop: return -1, go on, jump to HEADER_END, or jump to HEADER_SECTION_END.
pub data Step : Type 0 where
  invalid : Step
  next : Parse → Step
  line_end : Parse → Step
  section_end : Parse → Step

abbrev goto : Parse → HeaderState → Step
goto p s = next (record p { header_state = s })

abbrev push_name : Parse → ℕ → HeaderState → Step
push_name p c s =
    if leb p.uri_data_size (length p.name)
    then invalid
    else next (record p { name = p.name ++ c ∷ []; header_state = s })

abbrev push_value : Parse → ℕ → HeaderState → Step
push_value p c s =
    if leb p.uri_data_size (length p.value)
    then invalid
    else next (record p { value = p.value ++ c ∷ []; header_state = s })

-- the cases '\r' and '\n', which the name and the value states share
abbrev end_line : Parse → ℕ → Step → Step
end_line p c otherwise =
    if c == b'\r'
    then next (record (header_append p) { header_state = header_done_lf })
    else if c == b'\n'
    then line_end (record (header_append p) { header_state = header_start })
    else otherwise

unfoldable pub step_in : HeaderState → Parse → ℕ → Step
step_in header_start p c =
    if c == b'\r'
    then goto p header_start_lf
    else if c == b'\n'
    then section_end (record p { header_state = header_done })
    else if check_header c
    then push_name p c header_name
    else invalid
step_in header_start_lf p c =
    if c == b'\n' then section_end (record p { header_state = header_done }) else invalid
step_in header_name p c =
    if check_header c
    then push_name p c header_name
    else if c == b':'
    then goto p space_before_value
    else end_line p c invalid
step_in space_before_value p c =
    if is_blank c then next p else end_line p c (push_value p c header_value)
step_in header_value p c =
    if is_blank c
    then push_value p c space_after_value
    else end_line p c (push_value p c header_value)
step_in space_after_value p c =
    if is_blank c
    then push_value p c space_after_value
    else end_line p c (push_value p c header_value)
step_in header_done_lf p c =
    if c == b'\n' then line_end (record p { header_state = header_start }) else invalid
step_in header_done p c = next p

-- `header_bytes_read++` and its limit stand in front of the switch.
abbrev pub counted : Parse → Parse
counted p = record p { header_bytes_read = p.header_bytes_read + 1 }

unfoldable pub step : Parse → ℕ → Step
step p c =
    if ltb max_header_bytes (counted p).header_bytes_read
    then invalid
    else step_in p.header_state (counted p) c

-- What a call returns: -1, 1 with the bytes not yet read, or 0 with the bytes behind the section.
pub data Result : Type 0 where
  refused : Result
  more : Parse → Bytes → Result
  complete : Parse → Bytes → Result

abbrev pub on_step : Step → Bytes → (Parse → Result) → Result
on_step invalid cs loop = refused
on_step (next q) cs loop = loop q
on_step (line_end q) cs loop = more q cs
on_step (section_end q) cs loop = complete q cs

unfoldable pub request_header_parse : Parse → Bytes → Result
request_header_parse p [] = more p []
request_header_parse p (c ∷ cs) = on_step (step p c) cs (λ q. request_header_parse q cs)
