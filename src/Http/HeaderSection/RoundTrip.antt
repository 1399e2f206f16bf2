-- ===== src/Http/HeaderSection/RoundTrip.antt =====
-- A header section, as a client writes it, is read back as the headers that it was written from.
use dbslayer.Prelude.{
  ℕ, ◌+◌, ◌≤◌, ◌≡◌, ◌≢◌, refl, ◌∙◌, inl, [], ◌∷◌, ◌++◌, Bytes, length, ◌<◌, append_assoc,
  append-nil, All, arith, true, false, List,
}
use dbslayer.Http.Parse.{
  Parse, Header, header_start, header_name, space_before_value, header_value, header_done,
}
use dbslayer.Http.HeaderSection.{
  step, step_in, counted, check_header, is_blank, max_header_bytes, complete,
}
use dbslayer.Http.HeaderSection.Loop.{read_section}
use dbslayer.Http.HeaderSection.Lines.{
  IsValueByte, EndsInk, StartsInk, trim_end-EndsInk, c_string-IsValueByte, run_name, run_value,
  run_line_end, at_line,
}

-- A name of one or more header bytes, and a value with no CR, LF or NUL and no blank at either end,
-- which both fit buffers of `size` bytes.
pub record IsWritable (size : ℕ) (h : Header) : Type 0 where
  pub name_ne_nil : 1 ≤ length h.name
  pub name_bytes : All (λ c. check_header c ≡ true) h.name
  pub name_fits : length h.name ≤ size
  pub value_bytes : All IsValueByte h.value
  pub starts_ink : StartsInk h.value
  pub ends_ink : EndsInk h.value
  pub value_fits : length h.value ≤ size

-- "Name: value\r\n" for each header, and the empty line.
abbrev pub write_section : List Header → Bytes → Bytes
write_section [] rest = b'\r' ∷ b'\n' ∷ rest
write_section (h ∷ hs) rest =
    h.name ++ (b':' ∷ b' ' ∷ (h.value ++ (b'\r' ∷ b'\n' ∷ write_section hs rest)))

abbrev pub section_size : List Header → ℕ
section_size [] = 2
section_size (h ∷ hs) = length h.name + 2 + length h.value + 2 + section_size hs

run_first_byte :
    (c : ℕ) (p : Parse) (rest : Bytes)
    → p.header_state ≡ space_before_value
    → p.value ≡ []
    → is_blank c ≡ false
    → IsValueByte c
    → 1 ≤ p.uri_data_size
    → p.header_bytes_read < max_header_bytes
    → read_section p (c ∷ rest)
      ≡ read_section (record (counted p) { value = c ∷ []; header_state = header_value }) rest
unfolding read_section step step_in
run_first_byte c p rest s e i a h k = ground arith

-- from the first byte of the value, behind ": "
run_first :
    (v : Bytes) (p : Parse) (rest : Bytes)
    → p.header_state ≡ space_before_value
    → p.name ≢ []
    → p.value ≡ []
    → StartsInk v
    → All IsValueByte v
    → length v ≤ p.uri_data_size
    → p.header_bytes_read + length v + 2 ≤ max_header_bytes
    → read_section p (v ++ b'\r' ∷ b'\n' ∷ rest)
      ≡ read_section (at_line (record p { value = v }) (length v + 2)) rest
run_first [] p rest s n e i a h k = run_line_end p rest (inl s) n (omega arith) ∙ ground arith
run_first (c ∷ v) p rest s n e i a h k =
    run_first_byte c p _ s e i a.0 (omega arith) (omega arith)
    ∙ run_value v (record (counted p) { value = c ∷ []; header_state = header_value }) rest
        (inl refl) n a.1 (omega arith) (omega arith)
    ∙ ground arith

-- between two lines
pub record AtStart (p : Parse) : Type 0 where
  pub state_start : p.header_state ≡ header_start
  pub name_nil : p.name ≡ []
  pub value_nil : p.value ≡ []

-- the state behind the line of `h`
abbrev written : Parse → Header → Parse
written p h = record p {
  headers = p.headers ++ h ∷ [];
  header_bytes_read = p.header_bytes_read + (length h.name + 2 + length h.value + 2);
}

run_start_byte :
    (c : ℕ) (p : Parse) (rest : Bytes)
    → AtStart p
    → check_header c ≡ true
    → 1 ≤ p.uri_data_size
    → p.header_bytes_read < max_header_bytes
    → read_section p (c ∷ rest)
      ≡ read_section (record (counted p) { name = c ∷ []; header_state = header_name }) rest
unfolding read_section step step_in check_header
run_start_byte c p rest s a h k = ground arith

run_space :
    (p : Parse) (rest : Bytes)
    → p.header_state ≡ space_before_value
    → p.header_bytes_read < max_header_bytes
    → read_section p (b' ' ∷ rest) ≡ read_section (counted p) rest
unfolding read_section step step_in
run_space p rest s k = ground arith

run_empty_line :
    (p : Parse) (rest : Bytes)
    → AtStart p
    → p.header_bytes_read + 2 ≤ max_header_bytes
    → read_section p (b'\r' ∷ b'\n' ∷ rest)
      ≡ complete
          (record p { header_state = header_done; header_bytes_read = p.header_bytes_read + 2 })
          rest
unfolding read_section step step_in
run_empty_line p rest s k = ground arith

ne_nil : (n : Bytes) → 1 ≤ length n → n ≢ []
ne_nil [] h = elim h [ ]
ne_nil (c ∷ cs) h = ground arith

run_name_start :
    (n : Bytes) (p : Parse) (rest : Bytes)
    → AtStart p
    → 1 ≤ length n
    → All (λ c. check_header c ≡ true) n
    → length n ≤ p.uri_data_size
    → p.header_bytes_read + length n + 2 ≤ max_header_bytes
    → read_section p (n ++ b':' ∷ b' ' ∷ rest)
      ≡ read_section
          (record p {
            name = n;
            header_state = space_before_value;
            header_bytes_read = p.header_bytes_read + length n + 2;
          })
          rest
run_name_start [] p rest s z a h k = elim z [ ]
run_name_start (c ∷ n) p rest s z a h k =
    run_start_byte c p _ s a.0 (omega arith) (omega arith)
    ∙ run_name n (record (counted p) { name = c ∷ []; header_state = header_name }) _ refl a.1
        (omega arith) (omega arith)
    ∙ run_space _ rest refl (omega arith)
    ∙ ground arith

run_header :
    (h : Header) (p : Parse) (rest : Bytes)
    → AtStart p
    → IsWritable p.uri_data_size h
    → p.header_bytes_read + (length h.name + 2 + length h.value + 2) ≤ max_header_bytes
    → read_section p (h.name ++ (b':' ∷ b' ' ∷ (h.value ++ (b'\r' ∷ b'\n' ∷ rest))))
      ≡ read_section (written p h) rest
run_header h p rest s w k =
    run_name_start h.name p _ s w.name_ne_nil w.name_bytes w.name_fits (omega arith)
    ∙ run_first h.value _ rest refl (ne_nil h.name w.name_ne_nil) s.value_nil w.starts_ink
        w.value_bytes w.value_fits (omega arith)
    ∙ ground
        (arith, trim_end-EndsInk h.value w.ends_ink, c_string-IsValueByte h.value w.value_bytes)

abbrev pub WritableAll : ℕ → List Header → Type 0
WritableAll size = All (IsWritable size)

pub run_section :
    (hs : List Header) (p : Parse) (rest : Bytes)
    → AtStart p
    → WritableAll p.uri_data_size hs
    → p.header_bytes_read + section_size hs ≤ max_header_bytes
    → read_section p (write_section hs rest)
      ≡ complete
          (record p {
            headers = p.headers ++ hs;
            header_state = header_done;
            header_bytes_read = p.header_bytes_read + section_size hs;
          })
          rest
run_section [] p rest s w k =
    run_empty_line p rest s (omega arith) ∙ ground (arith, append-nil p.headers)
run_section (h ∷ hs) p rest s w k =
    run_header h p _ s w.0 (omega arith)
    ∙ run_section hs (written p h) rest
        (record { state_start = s.state_start; name_nil = s.name_nil; value_nil = s.value_nil }) w.1
        (omega arith)
    ∙ ground (arith, append_assoc p.headers (h ∷ []) hs)
