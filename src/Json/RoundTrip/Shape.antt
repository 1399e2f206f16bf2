-- ===== src/Json/RoundTrip/Shape.antt =====
-- Which values come back, and how their texts begin.
use dbslayer.Prelude.{
  ℕ, suc, ◌≤◌, ◌≡◌, refl, true, false, ◌∷◌, ◌++◌, Bytes, codes, ◌==◌, length, length-append, arith,
  All, max,
}
use dbslayer.Json.Value.{
  Value, Items, Fields, object, array, string, long, longlong, double, boolean, null, no_items,
  item, no_fields, field, bytes_lt,
}
use dbslayer.Json.Print.{print, more_items, more_fields, print_string}
use dbslayer.Json.Scan.{is_space}
use dbslayer.Json.RoundTrip.Strings.{IsChar}
use dbslayer.Json.RoundTrip.Numbers.{IsLong, BeginsNumber, decode_number-print_long, Stops}

-- how deep arrays and objects are nested
unfoldable mutual
  pub depth : Value → ℕ
  depth (object fs) = suc (depth_fields fs)
  depth (array vs) = suc (depth_items vs)
  depth _ = 0

  pub depth_items : Items → ℕ
  depth_items no_items = 0
  depth_items (item v vs) = max (depth v) (depth_items vs)

  pub depth_fields : Fields → ℕ
  depth_fields no_fields = 0
  depth_fields (field k v fs) = max (depth v) (depth_fields fs)

-- every name is smaller than `key`
unfoldable pub AllBelow : Bytes → Fields → Type 0
AllBelow key no_fields = Unit
AllBelow key (field k v fs) = (bytes_lt k key ≡ true) × AllBelow key fs

-- every name is greater than `key`
unfoldable pub AllAbove : Bytes → Fields → Type 0
AllAbove key no_fields = Unit
AllAbove key (field k v fs) = (bytes_lt key k ≡ true) × AllAbove key fs

unfoldable pub IsSorted : Fields → Type 0
IsSorted no_fields = Unit
IsSorted (field k v fs) = AllAbove k fs × IsSorted fs

-- A value with no double and no `JSON_LONGLONG`, whose strings are C strings and whose objects have
-- their names in order, each of them once.
unfoldable mutual
  pub IsPlain : Value → Type 0
  IsPlain (object fs) = ArePlainFields fs × IsSorted fs
  IsPlain (array vs) = ArePlain vs
  IsPlain (string s) = All IsChar s
  IsPlain (long n) = IsLong n
  IsPlain (longlong n) = ⊥
  IsPlain (double d) = ⊥
  IsPlain (boolean b) = Unit
  IsPlain null = Unit

  pub ArePlain : Items → Type 0
  ArePlain no_items = Unit
  ArePlain (item v vs) = IsPlain v × ArePlain vs

  pub ArePlainFields : Fields → Type 0
  ArePlainFields no_fields = Unit
  ArePlainFields (field k v fs) = All IsChar k × IsPlain v × ArePlainFields fs

-- the first byte of a printed value is neither white space nor a closing bracket
pub record BeginsValue (t : Bytes) : Type 0 where
  pub first : ℕ
  pub others : Bytes
  pub text_eq : t ≡ first ∷ others
  pub no_space : is_space first ≡ false
  pub no_bracket : (first == b']') ≡ false

abbrev begins :
    (c : ℕ) (cs : Bytes) → is_space c ≡ false → (c == b']') ≡ false → BeginsValue (c ∷ cs)
begins c cs h k = record { first = c; others = cs; text_eq = refl; no_space = h; no_bracket = k }

number-BeginsValue : (t : Bytes) → BeginsNumber t → BeginsValue t
number-BeginsValue t (c, cs, e, h) = record {
  first = c;
  others = cs;
  text_eq = e;
  no_space = ground (arith, h);
  no_bracket = ground (arith, h);
}

pub print-BeginsValue :
    (print_double : ℕ → Bytes) (v : Value) (rest : Bytes)
    → IsPlain v
    → Stops rest
    → BeginsValue (print print_double v ++ rest)
unfolding print IsPlain print_string
print-BeginsValue p (object no_fields) rest h s = begins _ _ refl refl
print-BeginsValue p (object (field k v fs)) rest h s = begins _ _ refl refl
print-BeginsValue p (array no_items) rest h s = begins _ _ refl refl
print-BeginsValue p (array (item v vs)) rest h s = begins _ _ refl refl
print-BeginsValue p (string t) rest h s = begins _ _ refl refl
print-BeginsValue p (long n) rest h s =
    number-BeginsValue _ (decode_number-print_long (λ t. (0, 0)) n rest h s).1
print-BeginsValue p (longlong n) rest h s = absurd h
print-BeginsValue p (double d) rest h s = absurd h
print-BeginsValue p (boolean true) rest h s = begins _ _ refl refl
print-BeginsValue p (boolean false) rest h s = begins _ _ refl refl
print-BeginsValue p null rest h s = begins _ _ refl refl

pub Stops-more_items : (p : ℕ → Bytes) (vs : Items) (rest : Bytes) → Stops (more_items p vs ++ rest)
unfolding print
Stops-more_items p no_items rest = refl
Stops-more_items p (item v vs) rest = refl

pub Stops-more_fields :
    (p : ℕ → Bytes) (fs : Fields) (rest : Bytes) → Stops (more_fields p fs ++ rest)
unfolding print
Stops-more_fields p no_fields rest = refl
Stops-more_fields p (field k v fs) rest = refl

-- how many rounds the loops take
abbrev pub count_items : Items → ℕ
count_items no_items = 0
count_items (item v vs) = suc (count_items vs)

abbrev pub count_fields : Fields → ℕ
count_fields no_fields = 0
count_fields (field k v fs) = suc (count_fields fs)

pub count_items-le :
    (p : ℕ → Bytes) (vs : Items) (rest : Bytes) → count_items vs ≤ length (more_items p vs ++ rest)
unfolding print
count_items-le p no_items rest = omega arith
count_items-le p (item v vs) rest = omega (
  arith,
  count_items-le p vs rest,
  length-append (more_items p vs) rest,
  length-append (print p v) (more_items p vs),
  length-append (print p v ++ more_items p vs) rest,
)

pub count_fields-le :
    (p : ℕ → Bytes) (fs : Fields) (rest : Bytes)
    → count_fields fs ≤ length (more_fields p fs ++ rest)
unfolding print
count_fields-le p no_fields rest = omega arith
count_fields-le p (field k v fs) rest =
    let more = codes " : " ++ (print p v ++ more_fields p fs) in
    omega (
      arith,
      count_fields-le p fs rest,
      length-append (more_fields p fs) rest,
      length-append (print p v) (more_fields p fs),
      length-append (print_string k) more,
      length-append (print_string k ++ more) rest,
    )
