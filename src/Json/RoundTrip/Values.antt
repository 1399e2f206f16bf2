-- ===== src/Json/RoundTrip/Values.antt =====
-- The round trip of whole values, by induction on the value.
use dbslayer.Prelude.{
  ℕ, zero, suc, ◌≤◌, ◌<◌, ◌≡◌, refl, sym, ap, ◌∙◌, true, false, [], ◌∷◌, ◌++◌, append_assoc,
  append-nil, Bytes, codes, length, Option, none, some, arith, All, starts_with,
}
use dbslayer.Json.Value.{
  Value, Items, Fields, object, array, string, long, longlong, double, boolean, null, no_items,
  item, no_fields, field, skip_put,
}
use dbslayer.Json.Print.{print, more_items, more_fields, print_string, escaped}
use dbslayer.Json.Scan.{
  skip_space, decode_string, decode_number, decode_null, decode_boolean, scan_then,
}
use dbslayer.Json.Parse.{
  Decoder, array_loop, array_loop_or, array_round, array_from, decode_array, object_loop,
  object_loop_or, object_round, object_from, decode_object, string_value, value_at, decode_value,
  decode_json, max_depth, at_end,
}
use dbslayer.Json.RoundTrip.Strings.{IsChar, decode_string-escaped}
use dbslayer.Json.RoundTrip.Numbers.{Stops, BeginsNumber, decode_number-print_long}
use dbslayer.Json.RoundTrip.Shape.{
  depth, depth_items, depth_fields, IsSorted, IsPlain, ArePlain, ArePlainFields, BeginsValue,
  print-BeginsValue, Stops-more_items, Stops-more_fields, count_items, count_fields, count_items-le,
  count_fields-le,
}
use dbslayer.Json.RoundTrip.Steps.{
  skip-value, array_loop-item, decode_array-item, object_loop-field, decode_object-field,
}
use dbslayer.Json.RoundTrip.Names.{
  fields_append, fields_append-no_fields, fields_append_assoc, skip_put_last, no_names, Precedes,
  Precedes-append, no_fields-Precedes,
}

-- a number above another is a successor
spend {ℓ} : (P : ℕ → Type ℓ) (n m : ℕ) → n < m → ((k : ℕ) → n ≤ k → P (suc k)) → P m
spend P n zero h step = absurd (omega (arith, h))
spend P n (suc m) h step = step m (omega (arith, h))

module _ (strtod : Bytes → ℕ × ℕ) (print_double : ℕ → Bytes) where
  blank_lem : (d : ℕ) (t : Bytes) → decode_value strtod d (b' ' ∷ t) ≡ decode_value strtod d t
  unfolding decode_value skip_space
  blank_lem zero t = refl
  blank_lem (suc d) t = refl

  -- what `decode_value` does with a text that begins with a value
  abbrev at_depth : ℕ → Option Decoder
  at_depth zero = none
  at_depth (suc d) = some (λ t. decode_value strtod d t)

  value_lem :
      (d : ℕ) (t : Bytes) → BeginsValue t → decode_value strtod d t ≡ value_at strtod (at_depth d) t
  unfolding decode_value
  value_lem zero t b = ap (value_at strtod none) (skip-value t b)
  value_lem (suc d) t b = ap (value_at strtod (at_depth (suc d))) (skip-value t b)

  string_lem :
      (deeper : Option Decoder) (s rest : Bytes)
      → All IsChar s
      → value_at strtod deeper (print_string s ++ rest) ≡ some (string s, rest)
  unfolding value_at print_string
  string_lem deeper s rest h =
      ap (λ t. string_value (decode_string t)) (append_assoc (escaped s) (0x22 ∷ []) rest)
      ∙ ap string_value (decode_string-escaped s rest h)

  number_at :
      (deeper : Option Decoder) (t : Bytes)
      → BeginsNumber t
      → value_at strtod deeper t ≡ decode_number strtod t
  unfolding value_at
  number_at deeper t (c, cs, e, h) =
      ap (value_at strtod deeper) e ∙ ground (arith, h) ∙ ap (decode_number strtod) (sym e)

  literal_lem :
      (deeper : Option Decoder) (rest : Bytes)
      → (value_at strtod deeper (codes "true" ++ rest) ≡ some (boolean true, rest))
        × (value_at strtod deeper (codes "false" ++ rest) ≡ some (boolean false, rest))
        × (value_at strtod deeper (codes "null" ++ rest) ≡ some (null, rest))
  unfolding value_at decode_boolean decode_null starts_with
  literal_lem deeper rest = (refl, refl, refl)

  array_at :
      (d : ℕ) (t : Bytes)
      → decode_value strtod (suc d) (b'[' ∷ t) ≡ decode_array (decode_value strtod d) t
  unfolding decode_value value_at skip_space
  array_at d t = refl

  object_at :
      (d : ℕ) (t : Bytes)
      → decode_value strtod (suc d) (b'{' ∷ t) ≡ decode_object (decode_value strtod d) t
  unfolding decode_value value_at skip_space
  object_at d t = refl

  empty_lem :
      (element : Decoder) (rest : Bytes)
      → (decode_array element (b']' ∷ rest) ≡ some (array no_items, rest))
        × (decode_object element (b'}' ∷ rest) ≡ some (object no_fields, rest))
  unfolding array_from object_from skip_space
  empty_lem element rest = (refl, refl)

  close_lem :
      (element : Decoder) (fuel : ℕ) (acc : Fields) (rest : Bytes)
      → (array_loop (suc fuel) element (b']' ∷ rest) ≡ some (no_items, rest))
        × (object_loop (suc fuel) element acc (b'}' ∷ rest) ≡ some (acc, rest))
  unfolding array_loop_or array_round object_loop_or object_round skip_space
  close_lem element fuel acc rest = (refl, refl)

  -- the text of a value in front of `more`, regrouped
  regroup : (s t more rest : Bytes) → (s ++ (t ++ more)) ++ rest ≡ s ++ (t ++ (more ++ rest))
  regroup s t more rest =
      append_assoc s (t ++ more) rest ∙ ap (λ x. s ++ x) (append_assoc t more rest)

  mutual
    unfolding print depth IsPlain IsSorted

    reads_value :
        (v : Value) (d : ℕ) (rest : Bytes)
        → IsPlain v
        → depth v ≤ d
        → Stops rest
        → decode_value strtod d (print print_double v ++ rest) ≡ some (v, rest)
    reads_value (object no_fields) d rest h l s =
        spend (λ n. decode_value strtod n (codes "{}" ++ rest) ≡ some (object no_fields, rest)) 0 d
          (omega (arith, l))
          (λ k _. object_at k (b'}' ∷ rest) ∙ (empty_lem (decode_value strtod k) rest).1)
    reads_value (object (field k v fs)) d rest ((c, p, h), (a, o)) l s =
        spend
          (λ n.
            decode_value strtod n (print print_double (object (field k v fs)) ++ rest)
            ≡ some (object (field k v fs), rest))
          (depth_fields (field k v fs)) d (omega (arith, l))
          (λ n m.
            let u = more_fields print_double fs ++ rest in
            let stops = Stops-more_fields print_double fs rest in
            object_at n _
            ∙ ap (λ x. decode_object (decode_value strtod n) x)
                (append_assoc (print_string k) _ rest
                  ∙ ap (λ x. print_string k ++ x)
                      (regroup (codes " : ") (print print_double v) (more_fields print_double fs)
                        rest))
            ∙ decode_object-field (decode_value strtod n) v (print print_double v) u
                (reads_value v n u p (omega (arith, m)) stops)
                (print-BeginsValue print_double v u p stops) (blank_lem n _) k c (field k v fs) rest
                (ap (λ acc. object_loop (suc (length u)) (decode_value strtod n) acc u)
                    (skip_put_last k v no_fields (no_names k))
                  ∙ reads_fields fs (field k v no_fields) n (length u) rest h o
                      (Precedes-append no_fields k v fs (no_fields-Precedes fs) a)
                      (omega (arith, m)) (count_fields-le print_double fs rest)))
    reads_value (array no_items) d rest h l s =
        spend (λ n. decode_value strtod n (codes "[]" ++ rest) ≡ some (array no_items, rest)) 0 d
          (omega (arith, l))
          (λ k _. array_at k (b']' ∷ rest) ∙ (empty_lem (decode_value strtod k) rest).0)
    reads_value (array (item v vs)) d rest (p, h) l s =
        spend
          (λ n.
            decode_value strtod n (print print_double (array (item v vs)) ++ rest)
            ≡ some (array (item v vs), rest))
          (depth_items (item v vs)) d (omega (arith, l))
          (λ n m.
            let u = more_items print_double vs ++ rest in
            let stops = Stops-more_items print_double vs rest in
            array_at n _
            ∙ ap (decode_array (decode_value strtod n))
                (append_assoc (print print_double v) (more_items print_double vs) rest)
            ∙ decode_array-item (decode_value strtod n) v (print print_double v) u
                (reads_value v n u p (omega (arith, m)) stops)
                (print-BeginsValue print_double v u p stops) (blank_lem n _) vs rest
                (reads_items vs n (length u) rest h (omega (arith, m))
                  (count_items-le print_double vs rest)))
    reads_value (string t) d rest h l s =
        value_lem d _ (print-BeginsValue print_double (string t) rest h s)
        ∙ string_lem (at_depth d) t rest h
    reads_value (long n) d rest h l s =
        let number = decode_number-print_long strtod n rest h s in
        value_lem d _ (print-BeginsValue print_double (long n) rest h s)
        ∙ number_at (at_depth d) _ number.1
        ∙ number.0
    reads_value (longlong n) d rest h l s = absurd h
    reads_value (double x) d rest h l s = absurd h
    reads_value (boolean true) d rest h l s =
        value_lem d _ (print-BeginsValue print_double (boolean true) rest h s)
        ∙ (literal_lem (at_depth d) rest).0
    reads_value (boolean false) d rest h l s =
        value_lem d _ (print-BeginsValue print_double (boolean false) rest h s)
        ∙ (literal_lem (at_depth d) rest).1
    reads_value null d rest h l s =
        value_lem d _ (print-BeginsValue print_double null rest h s)
        ∙ (literal_lem (at_depth d) rest).2

    reads_items :
        (vs : Items) (d fuel : ℕ) (rest : Bytes)
        → ArePlain vs
        → depth_items vs ≤ d
        → count_items vs ≤ fuel
        → array_loop (suc fuel) (decode_value strtod d) (more_items print_double vs ++ rest)
          ≡ some (vs, rest)
    reads_items no_items d fuel rest h l f =
        (close_lem (decode_value strtod d) fuel no_fields rest).0
    reads_items (item v vs) d fuel rest (p, h) l f =
        let u = more_items print_double vs ++ rest in
        let stops = Stops-more_items print_double vs rest in
        ap (array_loop (suc fuel) (decode_value strtod d))
          (regroup (codes " , ") (print print_double v) (more_items print_double vs) rest)
        ∙ array_loop-item (decode_value strtod d) v (print print_double v) u
            (reads_value v d u p (omega (arith, l)) stops)
            (print-BeginsValue print_double v u p stops) (blank_lem d _) fuel vs rest
            (spend (λ n. array_loop n (decode_value strtod d) u ≡ some (vs, rest)) (count_items vs)
              fuel (omega (arith, f)) (λ n m. reads_items vs d n rest h (omega (arith, l)) m))

    reads_fields :
        (fs acc : Fields) (d fuel : ℕ) (rest : Bytes)
        → ArePlainFields fs
        → IsSorted fs
        → Precedes acc fs
        → depth_fields fs ≤ d
        → count_fields fs ≤ fuel
        → object_loop (suc fuel) (decode_value strtod d) acc (more_fields print_double fs ++ rest)
          ≡ some (fields_append acc fs, rest)
    reads_fields no_fields acc d fuel rest h o q l f =
        (close_lem (decode_value strtod d) fuel acc rest).1
        ∙ ap (λ fs. some (fs, rest)) (sym (fields_append-no_fields acc))
    reads_fields (field k v fs) acc d fuel rest (c, p, h) (a, o) (b, q) l f =
        let u = more_fields print_double fs ++ rest in
        let stops = Stops-more_fields print_double fs rest in
        let acc' = fields_append acc (field k v no_fields) in
        ap (λ x. object_loop (suc fuel) (decode_value strtod d) acc (codes " , " ++ x))
          (append_assoc (print_string k) _ rest
            ∙ ap (λ x. print_string k ++ x)
                (regroup (codes " : ") (print print_double v) (more_fields print_double fs) rest))
        ∙ object_loop-field (decode_value strtod d) v (print print_double v) u
            (reads_value v d u p (omega (arith, l)) stops)
            (print-BeginsValue print_double v u p stops) (blank_lem d _) k c fuel acc
            (fields_append acc (field k v fs)) rest
            (spend
              (λ n.
                object_loop n (decode_value strtod d) (skip_put k v acc) u
                ≡ some (fields_append acc (field k v fs), rest))
              (count_fields fs) fuel (omega (arith, f))
              (λ n m.
                ap (λ x. object_loop (suc n) (decode_value strtod d) x u) (skip_put_last k v acc b)
                ∙ reads_fields fs acc' d n rest h o (Precedes-append acc k v fs q a)
                    (omega (arith, l)) m
                ∙ ap (λ gs. some (gs, rest)) (fields_append_assoc acc k v fs)))

  -- The text that `json_serialize` makes of a plain value which is nested at most 64 deep is decoded to
  -- that value.
  pub decode_json-print :
      (v : Value)
      → IsPlain v
      → depth v ≤ max_depth
      → decode_json strtod (print print_double v) ≡ some v
  unfolding decode_json skip_space
  decode_json-print v h l =
      ap (λ o. scan_then o (λ w rest. at_end w (skip_space rest)))
        (ap (decode_value strtod 64) (sym (append-nil (print print_double v)))
          ∙ reads_value v 64 [] h l tt)
