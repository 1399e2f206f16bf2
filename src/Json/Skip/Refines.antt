-- ===== src/Json/Skip/Refines.antt =====
-- common/json_skip.c: a skip list holds the fields that were put, whatever the heights of its nodes are.
use dbslayer.Prelude.{ℕ, ◌<◌, true, List, [], ◌∷◌, Bytes, ltb, ◌≡◌, refl, ap, ◌∙◌, arith}
use dbslayer.Json.Value.{Value, Fields, no_fields, skip_get, skip_put}
use dbslayer.Json.Order.{IsOrdered}
use dbslayer.Json.Skip.{Node, Skip, json_skip_create, json_skip_put, json_skip_get, node_height}
use dbslayer.Json.Skip.Levels.{fields_of, fields_of-put_node, Chain, Has}
use dbslayer.Json.Skip.Search.{IsSkip, json_skip_get-skip_get}
use dbslayer.Json.Skip.Kept.{placed, new_node, json_skip_put-IsSkip}

-- a skip list that holds some fields, on any levels
record Holds (s : Skip) (fs : Fields) : Type 0 where
  level : ℕ → List Node
  is_skip : IsSkip s level
  fields_eq : fields_of (level 0) ≡ fs

json_skip_put-Holds :
    (r : ℕ) (key : Bytes) (value : Value) (s : Skip) (fs : Fields)
    → 0 < s.height
    → Holds s fs
    → Holds (json_skip_put r key value s) (skip_put key value fs)
json_skip_put-Holds r key value s fs k held =
    let top = node_height s.height r in
    let fresh = new_node key value s in
    let lowest : ltb 0 top ≡ true = ground arith in
    record {
      level = placed top fresh held.level;
      is_skip = json_skip_put-IsSkip r key value s held.level k held.is_skip;
      fields_eq =
          rw lowest
            (fields_of-put_node fresh (held.level 0) ∙ ap (skip_put key value) held.fields_eq);
    }

-- a value under a name, and the number that `rand` gives for its node
pub record Put : Type 0 where
  pub random : ℕ
  pub name : Bytes
  pub value : Value

unfoldable pub put_all : List Put → Skip → Skip
put_all [] s = s
put_all (p ∷ ps) s = put_all ps (json_skip_put p.random p.name p.value s)

unfoldable pub put_fields : List Put → Fields → Fields
put_fields [] fs = fs
put_fields (p ∷ ps) fs = put_fields ps (skip_put p.name p.value fs)

put_all-Holds :
    (ps : List Put) (s : Skip) (fs : Fields)
    → 0 < s.height
    → Holds s fs
    → Holds (put_all ps s) (put_fields ps fs) × (0 < (put_all ps s).height)
unfolding put_all put_fields json_skip_put
put_all-Holds [] s fs k h = (h, k)
put_all-Holds (p ∷ ps) s fs k h =
    put_all-Holds ps _ _ k (json_skip_put-Holds p.random p.name p.value s fs k h)

create-Holds : (height : ℕ) → Holds (json_skip_create height) no_fields
unfolding Chain IsOrdered Has
create-Holds height = record {
  level = λ h. [];
  is_skip = record {
    chain = λ h l. refl;
    ordered = λ h. tt;
    counted = λ h. tt;
    size = λ h. omega arith;
    below = λ h n q. q;
  };
  fields_eq = refl;
}

-- The skip list with all its levels is the ordered list of its fields: on a list of any height but 0, whatever
-- is put into it, under names that may be equal, and whatever `rand` gives for the heights of the nodes,
-- json_skip_get finds the same as a search through the ordered list that skip_put makes of the same puts.
pub json_skip_get-put_all :
    (height : ℕ) (ps : List Put) (key : Bytes)
    → 0 < height
    → json_skip_get (put_all ps (json_skip_create height)) key
      ≡ skip_get key (put_fields ps no_fields)
json_skip_get-put_all height ps key k =
    let built = put_all-Holds ps (json_skip_create height) no_fields k (create-Holds height) in
    json_skip_get-skip_get _ built.0.level built.0.is_skip key built.1
    ∙ ap (skip_get key) built.0.fields_eq
