-- ===== src/Json/Value.antt =====
-- include/simplejson.h: `json_value`, a constructor for each of `JSON_TYPES`. An object is the bottom list
-- of its skip list (common/json_skip.c), which holds all nodes in the order of their keys; a double is
-- its 64 bits.
use dbslayer.Prelude.{
  ℕ, zero, suc, Bool, true, false, [], ◌∷◌, Bytes, bytes_eq, Option, none, some, ltb, ◌==◌,
  if◌then◌else◌,
}

-- `negsuc n` is -(n + 1)
pub data ℤ : Type 0 where
  pos : ℕ → ℤ
  negsuc : ℕ → ℤ

-- `n--`
abbrev pub decremented : ℤ → ℤ
decremented (pos zero) = negsuc 0
decremented (pos (suc n)) = pos n
decremented (negsuc n) = negsuc (suc n)

-- `n++`
abbrev pub incremented : ℤ → ℤ
incremented (pos n) = pos (suc n)
incremented (negsuc zero) = pos 0
incremented (negsuc (suc n)) = negsuc n

mutual
  pub data Value : Type 0 where
    object : Fields → Value
    array : Items → Value
    string : Bytes → Value
    long : ℤ → Value
    longlong : ℤ → Value
    double : ℕ → Value
    boolean : Bool → Value
    null : Value

  pub data Items : Type 0 where
    no_items : Items
    item : Value → Items → Items

  pub data Fields : Type 0 where
    no_fields : Fields
    field : Bytes → Value → Fields → Fields

-- `strcmp(a, b) < 0`
unfoldable pub bytes_lt : Bytes → Bytes → Bool
bytes_lt [] [] = false
bytes_lt [] (y ∷ ys) = true
bytes_lt (x ∷ xs) [] = false
bytes_lt (x ∷ xs) (y ∷ ys) =
    let rest = bytes_lt xs ys in if ltb x y then true else if x == y then rest else false

-- `json_skip_put`: the new node stands behind those with smaller keys, and before an equal one
unfoldable pub skip_put : Bytes → Value → Fields → Fields
skip_put key value no_fields = field key value no_fields
skip_put key value (field k v fs) =
    let rest = skip_put key value fs in
    if bytes_lt k key then field k v rest else field key value (field k v fs)

-- `json_skip_get`: behind the smaller keys, the next one is compared
unfoldable pub skip_get : Bytes → Fields → Option Value
skip_get key no_fields = none
skip_get key (field k v fs) =
    let rest = skip_get key fs in
    if bytes_lt k key then rest else if bytes_eq key k then some v else none
