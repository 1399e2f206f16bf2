-- ===== src/Server/Files.antt =====
-- common/slayer_http_fileserver.c. `realpath`, `apr_stat` and the reading of a file are an argument; a
-- path is its bytes before the NUL.
pub mod Below
pub mod Types
use dbslayer.Prelude.{
  starts_with, ℕ, zero, suc, ◌+◌, ◌-◌, ◌||◌, ◌&&◌, Bool, true, false, List, [], ◌∷◌, ◌++◌, Bytes,
  codes, bytes_eq, map, length, take, get_or, ltb, leb, ◌==◌, if◌then◌else◌, Option, none, some,
}

pub record FileInfo : Type 0 where
  pub size : ℕ
  pub is_regular : Bool

-- what the calls give back, `none` for a failure; `file_open` gives the bytes that can be read
pub record FileSystem : Type 0 where
  pub realpath : Bytes → Option Bytes
  pub stat : Bytes → Option FileInfo
  pub file_open : Bytes → Option Bytes

pub record Response : Type 0 where
  pub response_code : ℕ
  pub content_type : Bytes
  pub body : Bytes

-- `strstr(text, word) != NULL`
unfoldable pub contains : Bytes → Bytes → Bool
unfolding starts_with
contains word [] = starts_with word []
contains word (c ∷ text) = starts_with word (c ∷ text) || contains word text

abbrev pub to_lower : ℕ → ℕ
to_lower c = if leb b'A' c && leb c b'Z' then c + 32 else c

-- `strcasecmp(a, b) == 0`
unfoldable pub same_letters : Bytes → Bytes → Bool
same_letters a b = bytes_eq (map to_lower a) (map to_lower b)

abbrev pub mtypes : List (Bytes × Bytes)
mtypes =
    (codes ".html", codes "text/html")
    ∷ (codes ".png", codes "image/png")
    ∷ (codes ".gif", codes "image/gif")
    ∷ (codes ".jpg", codes "image/jpeg")
    ∷ (codes ".xml", codes "text/xml")
    ∷ (codes ".xsl", codes "text/xml")
    ∷ []

-- a dot further on comes first, for the search starts at the end
abbrev pub dot_from : ℕ → Bytes → Option Bytes → Option Bytes
dot_from c text (some end) = some end
dot_from c text none = if c == b'.' then some (c ∷ text) else none

abbrev pub last_dot : Bytes → Option Bytes
last_dot [] = none
last_dot (c ∷ text) = dot_from c text (last_dot text)

unfoldable pub find_type : List (Bytes × Bytes) → Bytes → Bytes
find_type [] end = codes "text/plain"
find_type ((suffix, mtype) ∷ types) end =
    let other = find_type types end in if same_letters end suffix then mtype else other

abbrev pub type_of_end : Option Bytes → Bytes
type_of_end none = codes "text/plain"
type_of_end (some end) = find_type mtypes end

abbrev pub content_type_of : Bytes → Bytes
content_type_of query = type_of_end (last_dot query)

abbrev pub not_found : Response
not_found = record {
  response_code = 404;
  content_type = codes "text/plain; charset=utf-8";
  body = codes "Not Found";
}

abbrev pub file_response : Bytes → FileInfo → Bytes → Response
file_response query info content = record {
  response_code = 200;
  content_type = content_type_of query;
  body = take info.size content;
}

abbrev pub after_open : Bytes → FileInfo → Option Bytes → Response
after_open query info none = not_found
after_open query info (some content) = file_response query info content

abbrev pub after_stat : FileSystem → Bytes → Bytes → Option FileInfo → Response
after_stat fs query resolved none = not_found
after_stat fs query resolved (some info) =
    if info.is_regular then after_open query info (fs.file_open resolved) else not_found

-- the end of the text reads as its NUL
unfoldable pub is_under : Bytes → Bytes → Bool
is_under base resolved =
    let next = get_or resolved (length base) 0 in
    starts_with base resolved && (next == b'/' || next == 0)

abbrev pub after_realpath : FileSystem → Bytes → Option Bytes → Option Bytes → Response
after_realpath fs query (some base) (some resolved) =
    if is_under base resolved then after_stat fs query resolved (fs.stat resolved) else not_found
after_realpath fs query _ _ = not_found

unfoldable pub index_page : Bytes → Bytes
index_page query = if bytes_eq query (codes "/") then codes "/index.html" else query

unfoldable pub fileserver : FileSystem → Option Bytes → Option Bytes → Response
fileserver fs (some basedir) (some query) =
    let page = index_page query in
    if contains (codes "..") query
    then not_found
    else after_realpath fs page (fs.realpath basedir) (fs.realpath (basedir ++ page))
fileserver fs _ _ = not_found
