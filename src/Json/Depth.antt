-- ===== src/Json/Depth.antt =====
-- No decoded value is nested Deeper than JSON_MAX_DEPTH, whatever the text.
use dbslayer.Prelude.{
  starts_with, codes, subst, ℕ, zero, suc, ◌≡◌, Bool, true, false, [], ◌∷◌, Bytes, length, ◌==◌,
  Bool-cases, inl, inr, if◌then◌else◌, Option, none, some, ◌||◌,
}
use dbslayer.Json.Value.{
  Value, Items, Fields, object, array, no_items, item, no_fields, field, skip_put, bytes_lt, string,
  long, longlong, double, boolean, null, ℤ,
}
use dbslayer.Json.Order.{IsOrdered, skip_put-IsOrdered}
use dbslayer.Json.Scan.{
  Scanned, scan_then, is_digit, skip_space, decode_null, decode_boolean, decode_number,
  decode_string, is_float, strtol, long_value, double_value,
}
use dbslayer.Json.Parse.{
  Decoder, expect_byte, array_round, array_loop, array_loop_or, array_from, with_name, member_value,
  member_name, decode_member, object_round, object_loop, object_loop_or, object_of, object_from,
  string_value, nested, value_at, decode_value, decode_json, max_depth, at_end,
}

-- `P` holds of what was decoded, if anything was
abbrev pub Ensures {ℓ} : {A : Type ℓ} → (A → Type 0) → Scanned A → Type 0
Ensures P none = Unit
Ensures P (some (a, rest)) = P a

pub Ensures-scan_then {ℓ κ} :
    {A : Type ℓ} {B : Type κ} (P : A → Type 0) (Q : B → Type 0) (o : Scanned A)
    (next : A → Bytes → Scanned B)
    → Ensures P o
    → ((a : A) (rest : Bytes) → P a → Ensures Q (next a rest))
    → Ensures Q (scan_then o next)
Ensures-scan_then P Q none next h k = tt
Ensures-scan_then P Q (some (a, rest)) next h k = k a rest h

pub Ensures-if {ℓ} :
    {A : Type ℓ} (P : A → Type 0) (b : Bool) (x y : Scanned A)
    → Ensures P x
    → Ensures P y
    → Ensures P (if b then x else y)
Ensures-if P true x y h k = h
Ensures-if P false x y h k = k

-- one level down, if there is one
abbrev pub Deeper : ℕ → (ℕ → Type 0) → Type 0
Deeper zero P = ⊥
Deeper (suc n) P = P n

-- A value that is nested at most `n` deep, with the names of every object in order.
unfoldable mutual
  pub IsDecoded : ℕ → Value → Type 0
  IsDecoded n (object fs) = Deeper n (λ m. AreDecodedFields m fs × IsOrdered fs)
  IsDecoded n (array vs) = Deeper n (λ m. AreDecoded m vs)
  IsDecoded n (string s) = Unit
  IsDecoded n (long x) = Unit
  IsDecoded n (longlong x) = Unit
  IsDecoded n (double x) = Unit
  IsDecoded n (boolean b) = Unit
  IsDecoded n null = Unit

  pub AreDecoded : ℕ → Items → Type 0
  AreDecoded n no_items = Unit
  AreDecoded n (item v vs) = IsDecoded n v × AreDecoded n vs

  pub AreDecodedFields : ℕ → Fields → Type 0
  AreDecodedFields n no_fields = Unit
  AreDecodedFields n (field k v fs) = IsDecoded n v × AreDecodedFields n fs

skip_put-AreDecoded :
    (n : ℕ) (k : Bytes) (v : Value) (fs : Fields)
    → IsDecoded n v
    → AreDecodedFields n fs
    → AreDecodedFields n (skip_put k v fs)
unfolding skip_put IsDecoded
skip_put-AreDecoded n k v no_fields h p = (h, tt)
skip_put-AreDecoded n k v (field l w fs) h (q, p) = elim (Bool-cases (bytes_lt l k)) [
  | inl e ↦ rw e (q, skip_put-AreDecoded n k v fs h p)
  | inr e ↦ rw e (h, (q, p))
]

abbrev AreFields : ℕ → Fields → Type 0
AreFields n fs = AreDecodedFields n fs × IsOrdered fs

skip_put-AreFields :
    (n : ℕ) (k : Bytes) (v : Value) (fs : Fields)
    → IsDecoded n v
    → AreFields n fs
    → AreFields n (skip_put k v fs)
skip_put-AreFields n k v fs h (p, o) =
    (skip_put-AreDecoded n k v fs h p, skip_put-IsOrdered k v fs o)

abbrev IsMember : ℕ → Bytes × Value → Type 0
IsMember n m = IsDecoded n m.1

module _ (n : ℕ) (element : Decoder)
    (decoded : (t : Bytes) → Ensures (IsDecoded n) (element t)) where
  items_round :
      (loop : Bytes → Scanned Items) (t : Bytes)
      → ((u : Bytes) → Ensures (AreDecoded n) (loop u))
      → Ensures (AreDecoded n) (array_round element loop t)
  unfolding array_round IsDecoded
  items_round loop [] h = tt
  items_round loop (c ∷ cs) h = Ensures-if (AreDecoded n) (c == b']') _ _ tt (
      Ensures-if (AreDecoded n) (c == b',') _ none
        (Ensures-scan_then (IsDecoded n) (AreDecoded n) (element cs) _ (decoded cs) λ v rest p.
          Ensures-scan_then (AreDecoded n) (AreDecoded n) (loop rest) _ (h rest) λ vs end q. (p, q))
        tt)

  items_lem : (fuel : ℕ) (t : Bytes) → Ensures (AreDecoded n) (array_loop fuel element t)
  unfolding array_loop_or
  items_lem zero t = tt
  items_lem (suc fuel) t =
      items_round (λ rest. array_loop fuel element rest) (skip_space t) (λ u. items_lem fuel u)

  array_from-IsDecoded : (t : Bytes) → Ensures (IsDecoded (suc n)) (array_from element t)
  unfolding array_from IsDecoded
  array_from-IsDecoded [] = tt
  array_from-IsDecoded (c ∷ cs) = Ensures-if (IsDecoded (suc n)) (c == b']') _ _ tt (
      Ensures-scan_then (IsDecoded n) (IsDecoded (suc n)) (element (c ∷ cs)) _ (decoded (c ∷ cs))
        λ v rest p.
          Ensures-scan_then (AreDecoded n) (IsDecoded (suc n))
            (array_loop (suc (length rest)) element rest) _ (items_lem (suc (length rest)) rest)
            λ vs end q. (p, q))

  named_lem :
      (name : Bytes) (o : Scanned Value)
      → Ensures (IsDecoded n) o
      → Ensures (IsMember n) (with_name name o)
  named_lem name none h = tt
  named_lem name (some (v, rest)) h = h

  value_lem : (name : Bytes) (o : Option Bytes) → Ensures (IsMember n) (member_value element name o)
  value_lem name none = tt
  value_lem name (some t) = named_lem name (element (skip_space t)) (decoded (skip_space t))

  name_lem : (o : Option Bytes) → Ensures (IsMember n) (member_name element o)
  name_lem none = tt
  name_lem (some t) =
      Ensures-scan_then (λ name. Unit {0}) (IsMember n) (decode_string t) _
        (unit_lem (decode_string t))
        λ name rest _. value_lem name (expect_byte b':' (skip_space rest))
    where
      unit_lem : (o : Scanned Bytes) → Ensures (λ name. Unit {0}) o
      unit_lem none = tt
      unit_lem (some (s, rest)) = tt

  member_lem : (t : Bytes) → Ensures (IsMember n) (decode_member element t)
  unfolding decode_member
  member_lem t = name_lem (expect_byte 0x22 (skip_space t))

  fields_round :
      (loop : Fields → Bytes → Scanned Fields) (acc : Fields) (t : Bytes)
      → ((fs : Fields) (u : Bytes) → AreFields n fs → Ensures (AreFields n) (loop fs u))
      → AreFields n acc
      → Ensures (AreFields n) (object_round element loop acc t)
  unfolding object_round
  fields_round loop acc [] h a = tt
  fields_round loop acc (c ∷ cs) h a = Ensures-if (AreFields n) (c == b'}') _ _ a (
      Ensures-if (AreFields n) (c == b',') _ none
        (Ensures-scan_then (IsMember n) (AreFields n) (decode_member element cs) _ (member_lem cs)
          λ m rest p. h (skip_put m.0 m.1 acc) rest (skip_put-AreFields n m.0 m.1 acc p a))
        tt)

  fields_lem :
      (fuel : ℕ) (acc : Fields) (t : Bytes)
      → AreFields n acc
      → Ensures (AreFields n) (object_loop fuel element acc t)
  unfolding object_loop_or
  fields_lem zero acc t a = tt
  fields_lem (suc fuel) acc t a =
      fields_round (λ fs rest. object_loop fuel element fs rest) acc (skip_space t)
        (λ fs u b. fields_lem fuel fs u b) a

  object_lem :
      (o : Scanned Fields) → Ensures (AreFields n) o → Ensures (IsDecoded (suc n)) (object_of o)
  unfolding IsDecoded
  object_lem none h = tt
  object_lem (some (fs, rest)) h = h

  object_from-IsDecoded : (t : Bytes) → Ensures (IsDecoded (suc n)) (object_from element t)
  unfolding object_from IsDecoded IsOrdered
  object_from-IsDecoded [] = tt
  object_from-IsDecoded (c ∷ cs) =
      Ensures-if (IsDecoded (suc n)) (c == b'}') _ _ (tt, tt)
        (Ensures-scan_then (IsMember n) (IsDecoded (suc n)) (decode_member element (c ∷ cs)) _
          (member_lem (c ∷ cs))
          λ m rest p. object_lem _ (
            fields_lem (suc (length rest)) (skip_put m.0 m.1 no_fields) rest
              (skip_put-AreFields n m.0 m.1 no_fields p (tt, tt))))

module _ (strtod : Bytes → ℕ × ℕ) where
  literal_lem :
      (n : ℕ) (t : Bytes)
      → Ensures (IsDecoded n) (decode_null t) × Ensures (IsDecoded n) (decode_boolean t)
  unfolding decode_null decode_boolean IsDecoded
  literal_lem n t = (
    Ensures-if (IsDecoded n) (starts_with (codes "null") t) _ none tt tt,
    Ensures-if (IsDecoded n) (starts_with (codes "true") t) _ _ tt
        (Ensures-if (IsDecoded n) (starts_with (codes "false") t) _ none tt tt),
  )

  number_lem : (n : ℕ) (t : Bytes) → Ensures (IsDecoded n) (decode_number strtod t)
  unfolding decode_number IsDecoded
  number_lem n t =
      Ensures-if (IsDecoded n) (is_float true t) _ _ (double_lem (strtod t)) (long_lem (strtol t))
    where
      double_lem : (o : ℕ × ℕ) → Ensures (IsDecoded n) (double_value t o)
      double_lem (d, zero) = tt
      double_lem (d, suc k) = tt

      long_lem : (o : Scanned ℤ) → Ensures (IsDecoded n) (long_value o)
      long_lem none = tt
      long_lem (some (x, rest)) = tt

  string_lem : (n : ℕ) (o : Scanned Bytes) → Ensures (IsDecoded n) (string_value o)
  unfolding IsDecoded
  string_lem n none = tt
  string_lem n (some (s, rest)) = tt

  -- `deeper_lem` is about the arrays and objects below
  value_at-IsDecoded :
      (n : ℕ) (element : Option Decoder) (t : Bytes)
      → ((decode : Decoder → Scanned Value)
          → ((m : ℕ) (e : Decoder)
              → ((u : Bytes) → Ensures (IsDecoded m) (e u))
              → Ensures (IsDecoded (suc m)) (decode e))
          → Ensures (IsDecoded n) (nested element decode))
      → Ensures (IsDecoded n) (value_at strtod element t)
  unfolding value_at
  value_at-IsDecoded n element [] below = tt
  value_at-IsDecoded n element (c ∷ cs) below =
      Ensures-if (IsDecoded n) (c == 0x22) _ _ (string_lem n (decode_string cs)) (
        Ensures-if (IsDecoded n) (c == b'[') _ _
          (below (λ e. array_from e (skip_space cs))
            (λ m e h. array_from-IsDecoded m e h (skip_space cs)))
          (Ensures-if (IsDecoded n) (c == b'{') _ _
            (below (λ e. object_from e (skip_space cs))
              (λ m e h. object_from-IsDecoded m e h (skip_space cs)))
            (Ensures-if (IsDecoded n) (c == b'n') _ _ (literal_lem n (c ∷ cs)).0 (
              Ensures-if (IsDecoded n) (c == b't' || c == b'f') _ _ (literal_lem n (c ∷ cs)).1 (
                Ensures-if (IsDecoded n) (c == b'-' || is_digit c) _ none (number_lem n (c ∷ cs))
                  tt)))))

  decode_value-IsDecoded : (n : ℕ) (t : Bytes) → Ensures (IsDecoded n) (decode_value strtod n t)
  unfolding decode_value
  decode_value-IsDecoded zero t = value_at-IsDecoded 0 none (skip_space t) (λ decode h. tt)
  decode_value-IsDecoded (suc n) t =
      value_at-IsDecoded (suc n) (some (λ u. decode_value strtod n u)) (skip_space t)
        (λ decode h. h n (λ u. decode_value strtod n u) (λ u. decode_value-IsDecoded n u))

  -- Whatever the text, a decoded value has arrays and objects nested at most 64 deep, and the names of
  -- every object in it stand in the order of `strcmp`.
  pub decode_json-IsDecoded :
      (t : Bytes) (v : Value) → decode_json strtod t ≡ some v → IsDecoded max_depth v
  unfolding decode_json
  decode_json-IsDecoded t v e =
      end_lem (decode_value strtod max_depth t) (decode_value-IsDecoded max_depth t) e
    where
      rest_lem :
          (w : Value) (rest : Bytes)
          → IsDecoded max_depth w
          → at_end w rest ≡ some v
          → IsDecoded max_depth v
      rest_lem w [] h e = subst (IsDecoded max_depth) (cc) h
      rest_lem w (c ∷ cs) h e = cc

      end_lem :
          (o : Scanned Value)
          → Ensures (IsDecoded max_depth) o
          → scan_then o (λ w rest. at_end w (skip_space rest)) ≡ some v
          → IsDecoded max_depth v
      end_lem none h e = cc
      end_lem (some (w, rest)) h e = rest_lem w (skip_space rest) h e
