-- ===== src/Json/Skip/Tests.antt =====
-- common/json_skip.c: a skip list of five nodes, two of them under one name.
use dbslayer.Prelude.{List, [], ◌∷◌, bytes_eq, codes, ◌≡◌, refl, some, arith}
use dbslayer.Json.Value.{pos, long, no_fields, skip_get, bytes_lt}
use dbslayer.Json.Skip.{
  walk, descend, fix_at, link, height_more, json_skip_find, json_skip_get, json_skip_put,
  json_skip_create, json_skip_replace, Skip,
}
use dbslayer.Json.Skip.Refines.{Put, put_all, put_fields, json_skip_get-put_all}

abbrev puts : List Put
puts =
    record { random = 3; name = codes "b"; value = long (pos 1) }
    ∷ record { random = 0; name = codes "d"; value = long (pos 2) }
    ∷ record { random = 1; name = codes "a"; value = long (pos 3) }
    ∷ record { random = 255; name = codes "b"; value = long (pos 4) }
    ∷ record { random = 6; name = codes "c"; value = long (pos 5) }
    ∷ []

abbrev built : Skip
built = put_all puts (json_skip_create 7)

json_skip_get-b : json_skip_get built (codes "b") ≡ some (long (pos 4))
unfolding put_all json_skip_put json_skip_get json_skip_find walk descend fix_at link height_more
    bytes_lt bytes_eq
json_skip_get-b = refl

json_skip_get-replaced :
    json_skip_get (json_skip_replace 0 (codes "b") (long (pos 6)) built) (codes "b")
    ≡ some (long (pos 6))
unfolding put_all json_skip_put json_skip_replace json_skip_get json_skip_find walk descend fix_at
    link height_more bytes_lt bytes_eq
json_skip_get-replaced = refl

json_skip_get-put_all_example :
    json_skip_get (put_all puts (json_skip_create 7)) (codes "c")
    ≡ skip_get (codes "c") (put_fields puts no_fields)
json_skip_get-put_all_example = json_skip_get-put_all 7 puts (codes "c") (omega arith)
