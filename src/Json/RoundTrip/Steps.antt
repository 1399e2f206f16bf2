-- ===== src/Json/RoundTrip/Steps.antt =====
-- One round of each loop of the decoder, on a printed text.
use dbslayer.Prelude.{
  ℕ, suc, ◌≡◌, refl, sym, ap, ◌∙◌, false, [], ◌∷◌, ◌++◌, append_assoc, Bytes, codes, ◌==◌, some,
  All, length,
}
use dbslayer.Json.Value.{Value, Items, Fields, object, array, item, no_fields, skip_put}
use dbslayer.Json.Print.{print_string, escaped}
use dbslayer.Json.Scan.{scan_then, is_space, skip_space}
use dbslayer.Json.Parse.{
  Decoder, expect_byte, array_round, array_loop, array_loop_or, array_from, decode_array, with_name,
  member_value, member_name, decode_member, object_round, object_loop, object_loop_or, object_of,
  object_from, decode_object,
}
use dbslayer.Json.RoundTrip.Strings.{IsChar, decode_string-escaped}
use dbslayer.Json.RoundTrip.Shape.{BeginsValue}

skip_lem : (c : ℕ) (cs : Bytes) → is_space c ≡ false → skip_space (c ∷ cs) ≡ c ∷ cs
unfolding skip_space
skip_lem c cs h = rw h

pub skip-value : (t : Bytes) → BeginsValue t → skip_space t ≡ t
skip-value t b = ap skip_space b.text_eq ∙ skip_lem b.first b.others b.no_space ∙ sym b.text_eq

skip_blank : (t : Bytes) → skip_space (b' ' ∷ t) ≡ skip_space t
unfolding skip_space
skip_blank t = refl

-- The decoder of the elements, and an element `v` with its text `t` and what follows it. It passes
-- over white space in front of the element.
module _ (element : Decoder) (v : Value) (t u : Bytes) (reads : element (t ++ u) ≡ some (v, u))
    (begins : BeginsValue (t ++ u)) (blank : element (b' ' ∷ (t ++ u)) ≡ element (t ++ u)) where
  pub array_loop-item :
      (fuel : ℕ) (vs : Items) (end : Bytes)
      → array_loop fuel element u ≡ some (vs, end)
      → array_loop (suc fuel) element (codes " , " ++ (t ++ u)) ≡ some (item v vs, end)
  unfolding array_loop_or array_round skip_space
  array_loop-item fuel vs end h =
      ap
        (λ o. scan_then o (λ w rest.
          scan_then (array_loop fuel element rest) (λ ws rest'. some (item w ws, rest'))))
        (blank ∙ reads)
      ∙ ap (λ o. scan_then o (λ ws rest'. some (item v ws, rest'))) h

  pub decode_array-item :
      (vs : Items) (end : Bytes)
      → array_loop (suc (length u)) element u ≡ some (vs, end)
      → decode_array element (t ++ u) ≡ some (array (item v vs), end)
  unfolding array_from
  decode_array-item vs end h =
      ap (array_from element) (skip-value (t ++ u) begins ∙ begins.text_eq)
      ∙ first_lem begins.first begins.others begins.no_bracket
      ∙ ap
          (λ o. scan_then o (λ w rest.
            scan_then (array_loop (suc (length rest)) element rest)
              (λ ws rest'. some (array (item w ws), rest'))))
          (ap element (sym begins.text_eq) ∙ reads)
      ∙ ap (λ o. scan_then o (λ ws rest'. some (array (item v ws), rest'))) h
    where
      first_lem :
          (c : ℕ) (cs : Bytes)
          → (c == b']') ≡ false
          → array_from element (c ∷ cs)
            ≡ scan_then (element (c ∷ cs)) (λ w rest.
              scan_then
                (array_loop (suc (length rest)) element rest)
                (λ ws rest'. some (array (item w ws), rest')))
      first_lem c cs h = rw h

  module _ (k : Bytes) (chars : All IsChar k) where
    member_text :
        (x : Bytes)
        → decode_member element (print_string k ++ x)
          ≡ member_value element k (expect_byte b':' (skip_space x))
    unfolding decode_member expect_byte print_string skip_space
    member_text x =
        ap (λ y. member_name element (some y)) (append_assoc (escaped k) (0x22 ∷ []) x)
        ∙ ap
            (λ o.
              scan_then o
                (λ name rest. member_value element name (expect_byte b':' (skip_space rest))))
            (decode_string-escaped k x chars)

    colon_lem :
        member_value element k (expect_byte b':' (skip_space (codes " : " ++ (t ++ u))))
        ≡ with_name k (element (skip_space (t ++ u)))
    unfolding expect_byte skip_space
    colon_lem = refl

    pub decode_member_lem :
        decode_member element (print_string k ++ (codes " : " ++ (t ++ u))) ≡ some ((k, v), u)
    decode_member_lem =
        member_text (codes " : " ++ (t ++ u))
        ∙ colon_lem
        ∙ ap (with_name k) (ap element (skip-value (t ++ u) begins) ∙ reads)

    member_blank : (x : Bytes) → decode_member element (b' ' ∷ x) ≡ decode_member element x
    unfolding decode_member skip_space
    member_blank x = refl

    pub object_loop-field :
        (fuel : ℕ) (acc fs : Fields) (end : Bytes)
        → object_loop fuel element (skip_put k v acc) u ≡ some (fs, end)
        → object_loop
            (suc fuel)
            element
            acc
            (codes " , " ++ (print_string k ++ (codes " : " ++ (t ++ u))))
          ≡ some (fs, end)
    unfolding object_loop_or object_round skip_space
    object_loop-field fuel acc fs end h =
        ap (λ o. scan_then o (λ m rest. object_loop fuel element (skip_put m.0 m.1 acc) rest))
          (member_blank _ ∙ decode_member_lem)
        ∙ h

    quote_lem :
        (x : Bytes)
        → decode_object element (print_string k ++ x)
          ≡ scan_then (decode_member element (print_string k ++ x)) (λ m rest.
            object_of (object_loop (suc (length rest)) element (skip_put m.0 m.1 no_fields) rest))
    unfolding object_from print_string skip_space
    quote_lem x = refl

    pub decode_object-field :
        (fs : Fields) (end : Bytes)
        → object_loop (suc (length u)) element (skip_put k v no_fields) u ≡ some (fs, end)
        → decode_object element (print_string k ++ (codes " : " ++ (t ++ u)))
          ≡ some (object fs, end)
    decode_object-field fs end h =
        quote_lem (codes " : " ++ (t ++ u))
        ∙ ap
            (λ o. scan_then o (λ m rest.
              object_of
                (object_loop (suc (length rest)) element (skip_put m.0 m.1 no_fields) rest)))
            decode_member_lem
        ∙ ap object_of h
