-- ===== src/Json/Leaves/Loops.antt =====
-- Nor do the decoders of arrays and objects.
use dbslayer.Prelude.{ℕ, zero, suc, ◌≤◌, [], ◌∷◌, Bytes, length, ◌==◌, Option, none, some, arith}
use dbslayer.Json.Value.{Value, Items, Fields, no_fields, skip_put}
use dbslayer.Json.Scan.{Scanned, skip_space, decode_string}
use dbslayer.Json.Parse.{
  Decoder, expect_byte, array_round, array_loop, array_loop_or, array_from, with_name, member_value,
  member_name, decode_member, object_round, object_loop, object_loop_or, object_of, object_from,
}
use dbslayer.Json.Leaves.{
  Leaves, Leaves-scan_then, Leaves-if, length-skip_space, weaken, decode_string-Leaves, IsShorter,
  expect_byte-IsShorter,
}

-- A decoder of elements that leaves no more than it gets.
module _ (element : Decoder) (leaves : (t : Bytes) → Leaves (length t) (element t)) where
  named_lem : (n : ℕ) (name : Bytes) (o : Scanned Value) → Leaves n o → Leaves n (with_name name o)
  named_lem n name none h = tt
  named_lem n name (some (v, rest)) h = h

  value_lem :
      (n : ℕ) (name : Bytes) (o : Option Bytes)
      → IsShorter n o
      → Leaves n (member_value element name o)
  value_lem n name none h = tt
  value_lem n name (some t) h = named_lem n name _ (
      weaken (length (skip_space t)) n _ (omega (arith, h, length-skip_space t))
        (leaves (skip_space t)))

  colon_lem : (n : ℕ) (t : Bytes) → length t ≤ n → IsShorter n (expect_byte b':' (skip_space t))
  colon_lem n t l = shorter_lem _ (expect_byte-IsShorter b':' (skip_space t))
    where
      shorter_lem : (o : Option Bytes) → IsShorter (length (skip_space t)) o → IsShorter n o
      shorter_lem none h = tt
      shorter_lem (some u) h = omega (arith, h, l, length-skip_space t)

  name_lem : (n : ℕ) (o : Option Bytes) → IsShorter n o → Leaves n (member_name element o)
  name_lem n none h = tt
  name_lem n (some t) h =
      Leaves-scan_then n n (decode_string t) _
        (weaken (length t) n (decode_string t) h (decode_string-Leaves t))
        λ name rest l. value_lem n name (expect_byte b':' (skip_space rest)) (colon_lem n rest l)

  pub decode_member-Leaves : (t : Bytes) → Leaves (length t) (decode_member element t)
  unfolding decode_member
  decode_member-Leaves t =
      name_lem (length t) _ (quote_lem _ (expect_byte-IsShorter 0x22 (skip_space t)))
    where
      quote_lem : (o : Option Bytes) → IsShorter (length (skip_space t)) o → IsShorter (length t) o
      quote_lem none h = tt
      quote_lem (some u) h = omega (arith, h, length-skip_space t)

  -- a round whose loops leave no more than they skip_get
  items_round :
      (n : ℕ) (loop : Bytes → Scanned Items) (t : Bytes)
      → length t ≤ n
      → ((u : Bytes) → Leaves (length u) (loop u))
      → Leaves n (array_round element loop t)
  unfolding array_round
  items_round n loop [] l h = tt
  items_round n loop (c ∷ cs) l h = Leaves-if n (c == b']') _ _ (omega (arith, l)) (
      Leaves-if n (c == b',') _ none
        (Leaves-scan_then n n (element cs) _
          (weaken (length cs) n (element cs) (omega (arith, l)) (leaves cs))
          λ v rest p.
            Leaves-scan_then n n (loop rest) _ (weaken (length rest) n (loop rest) p (h rest))
              λ vs end q. q)
        tt)

  array_loop-Leaves : (fuel : ℕ) (t : Bytes) → Leaves (length t) (array_loop fuel element t)
  unfolding array_loop_or
  array_loop-Leaves zero t = tt
  array_loop-Leaves (suc fuel) t =
      items_round (length t) (λ rest. array_loop fuel element rest) (skip_space t)
        (length-skip_space t) (λ u. array_loop-Leaves fuel u)

  pub array_from-Leaves : (t : Bytes) → Leaves (length t) (array_from element t)
  unfolding array_from
  array_from-Leaves [] = tt
  array_from-Leaves (c ∷ cs) =
      let n : ℕ = suc (length cs) in
      Leaves-if n (c == b']') _ _ (omega arith) (
        Leaves-scan_then n n (element (c ∷ cs)) _ (leaves (c ∷ cs)) λ v rest p.
          Leaves-scan_then n n (array_loop (suc (length rest)) element rest) _
            (weaken (length rest) n _ p (array_loop-Leaves (suc (length rest)) rest)) λ vs end q. q)

  fields_round :
      (n : ℕ) (loop : Fields → Bytes → Scanned Fields) (acc : Fields) (t : Bytes)
      → length t ≤ n
      → ((fs : Fields) (u : Bytes) → Leaves (length u) (loop fs u))
      → Leaves n (object_round element loop acc t)
  unfolding object_round
  fields_round n loop acc [] l h = tt
  fields_round n loop acc (c ∷ cs) l h = Leaves-if n (c == b'}') _ _ (omega (arith, l)) (
      Leaves-if n (c == b',') _ none
        (Leaves-scan_then n n (decode_member element cs) _
          (weaken (length cs) n (decode_member element cs) (omega (arith, l))
            (decode_member-Leaves cs))
          λ m rest p. weaken (length rest) n _ p (h (skip_put m.0 m.1 acc) rest))
        tt)

  object_loop-Leaves :
      (fuel : ℕ) (acc : Fields) (t : Bytes) → Leaves (length t) (object_loop fuel element acc t)
  unfolding object_loop_or
  object_loop-Leaves zero acc t = tt
  object_loop-Leaves (suc fuel) acc t =
      fields_round (length t) (λ fs rest. object_loop fuel element fs rest) acc (skip_space t)
        (length-skip_space t) (λ fs u. object_loop-Leaves fuel fs u)

  pub object_from-Leaves : (t : Bytes) → Leaves (length t) (object_from element t)
  unfolding object_from
  object_from-Leaves [] = tt
  object_from-Leaves (c ∷ cs) =
      let n : ℕ = suc (length cs) in
      Leaves-if n (c == b'}') _ _ (omega arith) (
        Leaves-scan_then n n (decode_member element (c ∷ cs)) _ (decode_member-Leaves (c ∷ cs))
          λ m rest p. of_lem n _ (
            weaken (length rest) n _ p
              (object_loop-Leaves (suc (length rest)) (skip_put m.0 m.1 no_fields) rest)))
    where
      of_lem : (n : ℕ) (o : Scanned Fields) → Leaves n o → Leaves n (object_of o)
      of_lem n none h = tt
      of_lem n (some (fs, rest)) h = h
