-- ===== src/Json/RoundTrip/Chars.antt =====
-- A printed value is a C string: none of its bytes is 0.
use dbslayer.Prelude.{
  ℕ, zero, suc, ◌+◌, ◌/◌, ◌%◌, ◌<◌, ◌≡◌, refl, Bool, true, false, not, ◌&&◌, List, [], ◌∷◌, ◌++◌,
  Bytes, codes, ltb, ◌==◌, Bool-cases, ltb→lt, if◌then◌else◌, inl, inr, All, All-append, arith,
  digit, passes_under, passes_at,
}
use dbslayer.Json.Value.{
  ℤ, pos, negsuc, Value, Items, Fields, object, array, string, long, longlong, double, boolean,
  null, no_items, item, no_fields, field,
}
use dbslayer.Json.Print.{
  digits, print_long, escape_byte, escaped, print_string, print, more_items, more_fields,
}
use dbslayer.Json.RoundTrip.Strings.{IsChar}
use dbslayer.Json.RoundTrip.Shape.{IsPlain, ArePlain, ArePlainFields}

pub digits-All {ℓ} :
    (P : ℕ → Type ℓ) (left n : ℕ) (out : Bytes)
    → ((d : ℕ) → d < 10 → P (b'0' + d))
    → All P out
    → All P (digits left n out)
unfolding digits
digits-All P zero n out f k = k
digits-All P (suc left) n out f k = elim (Bool-cases (ltb n 10)) [
  | inl e ↦ rw e (f n (ltb→lt n 10 e), k)
  | inr e ↦
      rw e (digits-All P left (n / 10) ((b'0' + n % 10) ∷ out) f (f (n % 10) (omega arith), k))
]

digit_table : passes_under (λ d. not (digit d == 0) && ltb (digit d) 256) 16 ≡ true
unfolding passes_under
digit_table = refl

digit-IsChar : (d : ℕ) → d < 16 → IsChar (digit d)
digit-IsChar d h =
    let p = passes_at (λ d. not (digit d == 0) && ltb (digit d) 256) d 16 digit_table h in
    ground (arith, p)

print_long-IsChar : (n : ℤ) → All IsChar (print_long n)
unfolding print_long
print_long-IsChar (pos n) = digits-All IsChar 20 n [] (λ d h. ground (arith, h)) tt
print_long-IsChar (negsuc n) =
    (ground arith, digits-All IsChar 20 (n + 1) [] (λ d h. ground (arith, h)) tt)

pub All-if {ℓ κ} :
    {A : Type ℓ} (P : A → Type κ) (b : Bool) (x y : List A)
    → All P x
    → All P y
    → All P (if b then x else y)
All-if P true x y h k = h
All-if P false x y h k = k

escape_byte-IsChar : (c : ℕ) → IsChar c → All IsChar (escape_byte c)
unfolding escape_byte
escape_byte-IsChar c h =
    let rest = All-if IsChar in
    rest (c == 0x0a) _ _ (ground arith) (
      rest (c == 0x0d) _ _ (ground arith) (
        rest (c == 0x09) _ _ (ground arith) (
          rest (c == 0x08) _ _ (ground arith) (
            rest (c == 0x0c) _ _ (ground arith) (
              rest (c == 0x5c) _ _ (ground arith) (
                rest (c == b'/') _ _ (ground arith) (
                  rest (c == 0x22) _ _ (ground arith) (
                    rest (ltb c 0x20) _ _
                      (
                        ground arith,
                        (
                          ground arith,
                          (
                            ground arith,
                            (
                              ground arith,
                              (
                                digit-IsChar (c / 16 % 16) (omega arith),
                                (digit-IsChar (c % 16) (omega arith), tt),
                              ),
                            ),
                          ),
                        ),
                      )
                      (h, tt)))))))))

escaped-IsChar : (s : Bytes) → All IsChar s → All IsChar (escaped s)
unfolding escaped
escaped-IsChar [] h = tt
escaped-IsChar (c ∷ cs) (h, k) =
    All-append IsChar (escape_byte c) (escaped cs) (escape_byte-IsChar c h) (escaped-IsChar cs k)

print_string-IsChar : (s : Bytes) → All IsChar s → All IsChar (print_string s)
unfolding print_string
print_string-IsChar s h =
    (ground arith, All-append IsChar (escaped s) (0x22 ∷ []) (escaped-IsChar s h) (ground arith))

-- a name, its value and what follows
member_lem :
    (k t u : Bytes)
    → All IsChar k
    → All IsChar t
    → All IsChar u
    → All IsChar (print_string k ++ (codes " : " ++ (t ++ u)))
member_lem k t u c p q =
    All-append IsChar (print_string k) _ (print_string-IsChar k c)
      (All-append IsChar (codes " : ") _ (ground arith) (All-append IsChar t u p q))

module _ (print_double : ℕ → Bytes) where
  mutual
    unfolding print IsPlain

    pub print-IsChar : (v : Value) → IsPlain v → All IsChar (print print_double v)
    print-IsChar (object no_fields) h = ground arith
    print-IsChar (object (field k v fs)) ((c, p, q), o) =
        (ground arith, member_lem k _ _ c (print-IsChar v p) (more_fields-IsChar fs q))
    print-IsChar (array no_items) h = ground arith
    print-IsChar (array (item v vs)) (p, q) = (
      ground arith,
      All-append IsChar (print print_double v) _ (print-IsChar v p) (more_items-IsChar vs q),
    )
    print-IsChar (string s) h = print_string-IsChar s h
    print-IsChar (long n) h = print_long-IsChar n
    print-IsChar (longlong n) h = absurd h
    print-IsChar (double d) h = absurd h
    print-IsChar (boolean true) h = ground arith
    print-IsChar (boolean false) h = ground arith
    print-IsChar null h = ground arith

    more_items-IsChar : (vs : Items) → ArePlain vs → All IsChar (more_items print_double vs)
    more_items-IsChar no_items h = ground arith
    more_items-IsChar (item v vs) (p, q) =
        All-append IsChar (codes " , ") _ (ground arith)
          (All-append IsChar (print print_double v) _ (print-IsChar v p) (more_items-IsChar vs q))

    more_fields-IsChar :
        (fs : Fields) → ArePlainFields fs → All IsChar (more_fields print_double fs)
    more_fields-IsChar no_fields h = ground arith
    more_fields-IsChar (field k v fs) (c, p, q) =
        All-append IsChar (codes " , ") _ (ground arith)
          (member_lem k _ _ c (print-IsChar v p) (more_fields-IsChar fs q))
