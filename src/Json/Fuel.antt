-- ===== src/Json/Fuel.antt =====
-- The fuel of the loops over the elements of arrays and objects is enough.
use dbslayer.Prelude.{
  ℕ, zero, suc, ◌+◌, ◌≤◌, ◌<◌, ◌≡◌, refl, ap, Bool, true, [], ◌∷◌, Bytes, length, codes,
  starts_with, ◌==◌, ◌||◌, if◌then◌else◌, Option, none, some, arith,
}
use dbslayer.Json.Value.{ℤ, Value, Items, Fields, item, skip_put}
use dbslayer.Json.Scan.{
  Scanned, scan_then, is_digit, skip_space, decode_null, decode_boolean, decode_number,
  decode_string, is_float, strtol, long_value, double_value,
}
use dbslayer.Json.Parse.{
  Decoder, array_round, array_loop, array_loop_or, array_from, decode_member, object_round,
  object_loop, object_loop_or, object_from, string_value, nested, value_at, decode_value,
}
use dbslayer.Json.Leaves.{
  Leaves, Leaves-if, length-skip_space, weaken, drop_le, strtol-Leaves, decode_string-Leaves,
}
use dbslayer.Json.Leaves.Loops.{array_from-Leaves, object_from-Leaves, decode_member-Leaves}

module _ (strtod : Bytes → ℕ × ℕ) where
  literal_lem :
      (t : Bytes) → Leaves (length t) (decode_null t) × Leaves (length t) (decode_boolean t)
  unfolding decode_null decode_boolean
  literal_lem t = (
    Leaves-if _ (starts_with (codes "null") t) _ none (drop_le 4 t) tt,
    Leaves-if _ (starts_with (codes "true") t) _ _ (drop_le 4 t)
        (Leaves-if _ (starts_with (codes "false") t) _ none (drop_le 5 t) tt),
  )

  number_lem : (t : Bytes) → Leaves (length t) (decode_number strtod t)
  unfolding decode_number
  number_lem t =
      Leaves-if _ (is_float true t) _ _ (double_lem (strtod t))
        (long_lem (strtol t) (strtol-Leaves t))
    where
      double_lem : (o : ℕ × ℕ) → Leaves (length t) (double_value t o)
      double_lem (d, zero) = tt
      double_lem (d, suc k) = drop_le (suc k) t

      long_lem : (o : Scanned ℤ) → Leaves (length t) o → Leaves (length t) (long_value o)
      long_lem none h = tt
      long_lem (some (x, rest)) h = h

  string_lem : (n : ℕ) (o : Scanned Bytes) → Leaves n o → Leaves n (string_value o)
  string_lem n none h = tt
  string_lem n (some (s, rest)) h = h

  value_at-Leaves :
      (n : ℕ) (element : Option Decoder) (t : Bytes)
      → length t ≤ n
      → ((decode : Decoder → Scanned Value)
          → ((e : Decoder) → ((u : Bytes) → Leaves (length u) (e u)) → Leaves n (decode e))
          → Leaves n (nested element decode))
      → Leaves n (value_at strtod element t)
  unfolding value_at
  value_at-Leaves n element [] l below = tt
  value_at-Leaves n element (c ∷ cs) l below =
      Leaves-if n (c == 0x22) _ _
        (string_lem n (decode_string cs)
          (weaken (length cs) n (decode_string cs) (omega (arith, l)) (decode_string-Leaves cs)))
        (Leaves-if n (c == b'[') _ _
          (below (λ e. array_from e (skip_space cs))
            (λ e h.
              weaken (length (skip_space cs)) n _ (omega (arith, l, length-skip_space cs))
                (array_from-Leaves e h (skip_space cs))))
          (Leaves-if n (c == b'{') _ _
            (below (λ e. object_from e (skip_space cs))
              (λ e h.
                weaken (length (skip_space cs)) n _ (omega (arith, l, length-skip_space cs))
                  (object_from-Leaves e h (skip_space cs))))
            (Leaves-if n (c == b'n') _ _ (weaken (suc (length cs)) n _ l (literal_lem (c ∷ cs)).0) (
              Leaves-if n (c == b't' || c == b'f') _ _
                (weaken (suc (length cs)) n _ l (literal_lem (c ∷ cs)).1)
                (Leaves-if n (c == b'-' || is_digit c) _ none
                  (weaken (suc (length cs)) n _ l (number_lem (c ∷ cs))) tt)))))

  pub decode_value-Leaves : (d : ℕ) (t : Bytes) → Leaves (length t) (decode_value strtod d t)
  unfolding decode_value
  decode_value-Leaves zero t =
      value_at-Leaves (length t) none (skip_space t) (length-skip_space t) (λ decode h. tt)
  decode_value-Leaves (suc d) t =
      value_at-Leaves (length t) (some (λ u. decode_value strtod d u)) (skip_space t)
        (length-skip_space t)
        (λ decode h. h (λ u. decode_value strtod d u) (λ u. decode_value-Leaves d u))

scan_then_eq {ℓ κ} :
    {A : Type ℓ} {B : Type κ} (n : ℕ) (o : Scanned A) (f g : A → Bytes → Option B)
    → Leaves n o
    → ((a : A) (rest : Bytes) → length rest ≤ n → f a rest ≡ g a rest)
    → scan_then o f ≡ scan_then o g
scan_then_eq n none f g h k = refl
scan_then_eq n (some (a, rest)) f g h k = k a rest h

if_eq {ℓ} :
    {A : Type ℓ} (b : Bool) (x y z : A) → y ≡ z → (if b then x else y) ≡ (if b then x else z)
if_eq b x y z e = ap (λ w. if b then x else w) e

then_eq {ℓ} :
    {A : Type ℓ} (b : Bool) (x y z : A) → x ≡ y → (if b then x else z) ≡ (if b then y else z)
then_eq b x y z e = ap (λ w. if b then w else z) e

module _ (element : Decoder) (leaves : (t : Bytes) → Leaves (length t) (element t)) where
  items_round :
      (f g : Bytes → Scanned Items) (t : Bytes)
      → ((u : Bytes) → length u < length t → f u ≡ g u)
      → array_round element f t ≡ array_round element g t
  unfolding array_round
  items_round f g [] h = refl
  items_round f g (c ∷ cs) h = if_eq (c == b']') _ _ _ (
      then_eq (c == b',') _ _ none (
        scan_then_eq (length cs) (element cs) _ _ (leaves cs) λ v rest l.
          ap (λ o. scan_then o (λ vs end. some (item v vs, end))) (h rest (omega (arith, l)))))

  array_loop_eq :
      (x y : Scanned Items) (f g : ℕ) (t : Bytes)
      → length t < f
      → length t < g
      → array_loop_or x f element t ≡ array_loop_or y g element t
  unfolding array_loop_or
  array_loop_eq x y zero g t l m = absurd (omega (arith, l))
  array_loop_eq x y (suc f) zero t l m = absurd (omega (arith, m))
  array_loop_eq x y (suc f) (suc g) t l m =
      items_round (λ u. array_loop_or x f element u) (λ u. array_loop_or y g element u)
        (skip_space t)
        (λ u k.
          array_loop_eq x y f g u (omega (arith, k, l, length-skip_space t))
            (omega (arith, k, m, length-skip_space t)))

  fields_round :
      (f g : Fields → Bytes → Scanned Fields) (acc : Fields) (t : Bytes)
      → ((fs : Fields) (u : Bytes) → length u < length t → f fs u ≡ g fs u)
      → object_round element f acc t ≡ object_round element g acc t
  unfolding object_round
  fields_round f g acc [] h = refl
  fields_round f g acc (c ∷ cs) h = if_eq (c == b'}') _ _ _ (
      then_eq (c == b',') _ _ none (
        scan_then_eq (length cs) (decode_member element cs) _ _
          (decode_member-Leaves element leaves cs)
          λ m rest l. h (skip_put m.0 m.1 acc) rest (omega (arith, l))))

  object_loop_eq :
      (x y : Scanned Fields) (f g : ℕ) (acc : Fields) (t : Bytes)
      → length t < f
      → length t < g
      → object_loop_or x f element acc t ≡ object_loop_or y g element acc t
  unfolding object_loop_or
  object_loop_eq x y zero g acc t l m = absurd (omega (arith, l))
  object_loop_eq x y (suc f) zero acc t l m = absurd (omega (arith, m))
  object_loop_eq x y (suc f) (suc g) acc t l m =
      fields_round (λ fs u. object_loop_or x f element fs u)
        (λ fs u. object_loop_or y g element fs u) acc (skip_space t)
        (λ fs u k.
          object_loop_eq x y f g fs u (omega (arith, k, l, length-skip_space t))
            (omega (arith, k, m, length-skip_space t)))

-- The loops over elements and members end by themselves: with the fuel that they are given, one unit for
-- each byte that is left and one more, or with any further fuel, they never use it up, since they give the
-- same whatever stands for used-up fuel.
pub loops-fuel :
    (strtod : Bytes → ℕ × ℕ) (items : Scanned Items) (fields : Scanned Fields) (d more : ℕ)
    (acc : Fields) (t : Bytes)
    → (array_loop_or items (suc (length t) + more) (decode_value strtod d) t
        ≡ array_loop (suc (length t)) (decode_value strtod d) t)
      × (object_loop_or fields (suc (length t) + more) (decode_value strtod d) acc t
          ≡ object_loop (suc (length t)) (decode_value strtod d) acc t)
loops-fuel strtod items fields d more acc t = (
  array_loop_eq (decode_value strtod d) (decode_value-Leaves strtod d) items none _ _ t
      (omega arith) (omega arith),
  object_loop_eq (decode_value strtod d) (decode_value-Leaves strtod d) fields none _ _ acc t
      (omega arith) (omega arith),
)
