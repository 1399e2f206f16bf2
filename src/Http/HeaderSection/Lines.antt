-- ===== src/Http/HeaderSection/Lines.antt =====
-- The header parser over the pieces of one line, each with any bytes behind it.
use dbslayer.Prelude.{
  ℕ, ◌+◌, ◌≤◌, ◌≡◌, ◌≢◌, refl, ◌∙◌, ◌⊎◌, inr, [], ◌∷◌, ◌++◌, Bytes, length, if◌then◌else◌, ◌<◌,
  length-append, append_assoc, append-nil, All, arith, true, false,
}
use dbslayer.Http.Parse.{
  Parse, header_start, header_name, space_before_value, header_value, space_after_value,
}
use dbslayer.Http.HeaderSection.{
  step, step_in, counted, appended, header_append, check_header, is_blank, c_string, trim_end,
  max_header_bytes,
}
use dbslayer.Http.HeaderSection.Loop.{read_section}

abbrev pub IsValueByte : ℕ → Type 0
IsValueByte c = (c ≢ b'\r') × (c ≢ b'\n') × (c ≢ 0)

abbrev pub EndsInk : Bytes → Type 0
EndsInk [] = Unit
EndsInk (c ∷ []) = is_blank c ≡ false
EndsInk (c ∷ d ∷ ds) = EndsInk (d ∷ ds)

abbrev pub StartsInk : Bytes → Type 0
StartsInk [] = Unit
StartsInk (c ∷ cs) = is_blank c ≡ false

pub trim_end-EndsInk : (v : Bytes) → EndsInk v → trim_end v ≡ v
unfolding trim_end
trim_end-EndsInk [] e = refl
trim_end-EndsInk (c ∷ []) e = ground arith
trim_end-EndsInk (c ∷ d ∷ ds) e = ground (arith, trim_end-EndsInk (d ∷ ds) e)

pub c_string-IsValueByte : (v : Bytes) → All IsValueByte v → c_string v ≡ v
unfolding c_string
c_string-IsValueByte [] a = refl
c_string-IsValueByte (c ∷ v) a = ground (arith, c_string-IsValueByte v a.1)

pub run_name :
    (n : Bytes) (p : Parse) (rest : Bytes)
    → p.header_state ≡ header_name
    → All (λ c. check_header c ≡ true) n
    → length p.name + length n ≤ p.uri_data_size
    → p.header_bytes_read + length n + 1 ≤ max_header_bytes
    → read_section p (n ++ b':' ∷ rest)
      ≡ read_section
          (record p {
            name = p.name ++ n;
            header_state = space_before_value;
            header_bytes_read = p.header_bytes_read + length n + 1;
          })
          rest
unfolding read_section step step_in check_header
run_name [] p rest e a h k = ground (arith, append-nil p.name)
run_name (c ∷ n) p rest e a h k = ground (
  arith,
  length-append p.name (c ∷ []),
  append_assoc p.name (c ∷ []) n,
  run_name n (record p { name = p.name ++ c ∷ []; header_bytes_read = p.header_bytes_read + 1 })
      rest e a.1,
)

-- behind the CR LF of a line, `n` bytes on
abbrev pub at_line : Parse → ℕ → Parse
at_line p n = record p {
  headers = p.headers ++ (record { name = p.name; value = c_string (trim_end p.value) } ∷ []);
  name = [];
  value = [];
  header_state = header_start;
  header_bytes_read = p.header_bytes_read + n;
}

appended-at_line :
    (p : Parse) (name : Bytes)
    → name ≢ []
    → appended p name ≡ record p {
      headers = p.headers ++ (record { name = name; value = c_string (trim_end p.value) } ∷ []);
      name = [];
      value = [];
    }
appended-at_line p [] n = absurd (n refl)
appended-at_line p (c ∷ cs) n = refl

pub run_line_end :
    (p : Parse) (rest : Bytes)
    → (p.header_state ≡ space_before_value)
      ⊎ ((p.header_state ≡ header_value) ⊎ (p.header_state ≡ space_after_value))
    → p.name ≢ []
    → p.header_bytes_read + 2 ≤ max_header_bytes
    → read_section p (b'\r' ∷ b'\n' ∷ rest) ≡ read_section (at_line p 2) rest
unfolding read_section step step_in header_append
run_line_end p rest s n k = ground (arith, appended-at_line (counted p) p.name n)

-- the state behind one byte of a value
abbrev in_value : Parse → ℕ → Parse
in_value p c = record (counted p) {
  value = p.value ++ c ∷ [];
  header_state = if is_blank c then space_after_value else header_value;
}

run_value_byte :
    (c : ℕ) (p : Parse) (rest : Bytes)
    → (p.header_state ≡ header_value) ⊎ (p.header_state ≡ space_after_value)
    → IsValueByte c
    → length p.value < p.uri_data_size
    → p.header_bytes_read < max_header_bytes
    → read_section p (c ∷ rest) ≡ read_section (in_value p c) rest
unfolding read_section step step_in
run_value_byte c p rest s a h k = ground arith

in_value_state :
    (p : Parse) (c : ℕ)
    → ((in_value p c).header_state ≡ header_value)
      ⊎ ((in_value p c).header_state ≡ space_after_value)
in_value_state p c = ground arith

pub run_value :
    (v : Bytes) (p : Parse) (rest : Bytes)
    → (p.header_state ≡ header_value) ⊎ (p.header_state ≡ space_after_value)
    → p.name ≢ []
    → All IsValueByte v
    → length p.value + length v ≤ p.uri_data_size
    → p.header_bytes_read + length v + 2 ≤ max_header_bytes
    → read_section p (v ++ b'\r' ∷ b'\n' ∷ rest)
      ≡ read_section (at_line (record p { value = p.value ++ v }) (length v + 2)) rest
run_value [] p rest s n a h k =
    run_line_end p rest (inr s) n (omega arith) ∙ rw (append-nil p.value)
run_value (c ∷ v) p rest s n a h k =
    run_value_byte c p _ s a.0 (omega arith) (omega arith)
    ∙ run_value v (in_value p c) rest (in_value_state p c) n a.1
        (omega (arith, length-append p.value (c ∷ []))) (omega arith)
    ∙ ground (arith, append_assoc p.value (c ∷ []) v)
