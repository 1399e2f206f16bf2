-- ===== src/Json/Xml/Read.antt =====
-- A reader of the XML that common/json2xml.c writes: tags without attributes that close in the order in
-- which they open, the references to `&`, `<`, `>` and to bytes by their code, and text. What XML
-- forbids in a text, or would change there, is an error, and so is an unknown reference.
use dbslayer.Prelude.{
  ℕ, zero, suc, Bool, true, false, ◌+◌, ◌*◌, ◌&&◌, ◌||◌, List, [], ◌∷◌, ◌++◌, Bytes, bytes_eq,
  codes, ltb, ◌==◌, if◌then◌else◌, Option, none, some, hex_value,
}

pub data Mode : Type 0 where
  content failed : Mode
  -- what was read behind `<`, or behind `&`
  markup reference : Bytes → Mode

pub data Event : Type 0 where
  start_tag end_tag : Bytes → Event
  char : ℕ → Event

pub record Reader : Type 0 where
  -- the open elements, the innermost first
  pub open_tags : List Bytes
  pub mode : Mode
  pub heard : List Event

abbrev pub at : List Bytes → List Event → Reader
at tags es = record { open_tags = tags; mode = content; heard = es }

abbrev pub with_mode : Mode → Reader → Reader
with_mode m r = record r { mode = m }

abbrev pub content_step : Reader → ℕ → Reader
content_step r c =
    if c == b'<'
    then with_mode (markup []) r
    else if c == b'&'
    then with_mode (reference []) r
    else if ltb c 0x20 || c == b'>'
    then with_mode failed r
    else at r.open_tags (r.heard ++ char c ∷ [])

abbrev end_element : Bytes → List Bytes → Reader → Reader
end_element name [] r = with_mode failed r
end_element name (tag ∷ tags) r =
    if bytes_eq tag name then at tags (r.heard ++ end_tag name ∷ []) else with_mode failed r

abbrev end_of_tag : Bytes → Reader → Reader
end_of_tag [] r = with_mode failed r
end_of_tag (c ∷ name) r =
    if c == b'/'
    then end_element name r.open_tags r
    else at ((c ∷ name) ∷ r.open_tags) (r.heard ++ start_tag (c ∷ name) ∷ [])

abbrev two_digits : Option ℕ → Option ℕ → Option ℕ
two_digits (some a) (some b) = some (a * 16 + b)
two_digits (some a) none = none
two_digits none b = none

abbrev by_code : Bytes → Option ℕ
by_code (h ∷ x ∷ a ∷ b ∷ []) =
    if h == b'#' && x == b'x' then two_digits (hex_value a) (hex_value b) else none
by_code _ = none

unfoldable pub meaning : Bytes → Option ℕ
unfolding hex_value bytes_eq
meaning name =
    if bytes_eq name (codes "amp")
    then some b'&'
    else if bytes_eq name (codes "lt")
    then some b'<'
    else if bytes_eq name (codes "gt")
    then some b'>'
    else by_code name

abbrev refer : Option ℕ → Reader → Reader
refer none r = with_mode failed r
refer (some c) r = at r.open_tags (r.heard ++ char c ∷ [])

abbrev step_in : Mode → Reader → ℕ → Reader
step_in content r c = content_step r c
step_in failed r c = r
step_in (markup name) r c =
    if c == b'>' then end_of_tag name r else with_mode (markup (name ++ c ∷ [])) r
step_in (reference name) r c =
    if c == b';' then refer (meaning name) r else with_mode (reference (name ++ c ∷ [])) r

unfoldable pub read : Reader → Bytes → Reader
unfolding meaning bytes_eq
read r [] = r
read r (c ∷ cs) = read (step_in r.mode r c) cs

abbrev pub finished : Mode → List Bytes → List Event → Option (List Event)
finished content [] es = some es
finished content (tag ∷ tags) es = none
finished failed tags es = none
finished (markup name) tags es = none
finished (reference name) tags es = none

-- What a text comes to, or `none` if it is not well-formed
unfoldable pub read_xml : Bytes → Option (List Event)
unfolding read
read_xml text = let r = read (at [] []) text in finished r.mode r.open_tags r.heard

-- inside of the root with `d` open elements: it closes at the end of the events, and not before
unfoldable pub rooted : ℕ → List Event → Bool
rooted zero [] = true
rooted zero (e ∷ es) = false
rooted (suc d) [] = false
rooted (suc d) (start_tag name ∷ es) = rooted (suc (suc d)) es
rooted (suc d) (end_tag name ∷ es) = rooted d es
rooted (suc d) (char c ∷ es) = rooted (suc d) es

-- one element, with nothing before or behind it
unfoldable pub one_root : List Event → Bool
unfolding rooted
one_root (start_tag name ∷ es) = rooted 1 es
one_root es = false

abbrev pub if_document : Option (List Event) → Option (List Event)
if_document none = none
if_document (some es) = if one_root es then some es else none

-- what a document comes to: a well-formed text with one root; the bytes from 0x80 on are not looked at
unfoldable pub read_document : Bytes → Option (List Event)
unfolding read_xml one_root
read_document text = if_document (read_xml text)
