-- ===== src/Json/RoundTrip/Names.antt =====
-- Objects whose names come in order: a greater name is put at the end.
use dbslayer.Prelude.{◌≡◌, refl, ap, true, Bytes}
use dbslayer.Json.Value.{Value, Fields, no_fields, field, bytes_lt, skip_put}
use dbslayer.Json.RoundTrip.Shape.{AllBelow, AllAbove}

abbrev pub fields_append : Fields → Fields → Fields
fields_append no_fields gs = gs
fields_append (field k v fs) gs = field k v (fields_append fs gs)

pub fields_append-no_fields : (fs : Fields) → fields_append fs no_fields ≡ fs
fields_append-no_fields no_fields = refl
fields_append-no_fields (field k v fs) = ap (field k v) (fields_append-no_fields fs)

pub fields_append_assoc :
    (fs : Fields) (k : Bytes) (v : Value) (gs : Fields)
    → fields_append (fields_append fs (field k v no_fields)) gs ≡ fields_append fs (field k v gs)
fields_append_assoc no_fields k v gs = refl
fields_append_assoc (field l w fs) k v gs = ap (field l w) (fields_append_assoc fs k v gs)

-- a name that is greater than all others is skip_put at the end
pub skip_put_last :
    (k : Bytes) (v : Value) (fs : Fields)
    → AllBelow k fs
    → skip_put k v fs ≡ fields_append fs (field k v no_fields)
unfolding skip_put AllBelow
skip_put_last k v no_fields h = refl
skip_put_last k v (field l w fs) (p, h) = rw p (ap (field l w) (skip_put_last k v fs h))

pub no_names : (k : Bytes) → AllBelow k no_fields
unfolding AllBelow
no_names k = tt

pub AllBelow-append :
    (k l : Bytes) (v : Value) (fs : Fields)
    → AllBelow k fs
    → bytes_lt l k ≡ true
    → AllBelow k (fields_append fs (field l v no_fields))
unfolding AllBelow
AllBelow-append k l v no_fields h p = (p, tt)
AllBelow-append k l v (field m w fs) (q, h) p = (q, AllBelow-append k l v fs h p)

-- every name of the one is smaller than every name of the other
abbrev pub Precedes : Fields → Fields → Type 0
Precedes acc no_fields = Unit
Precedes acc (field k v fs) = AllBelow k acc × Precedes acc fs

pub Precedes-append :
    (acc : Fields) (k : Bytes) (v : Value) (fs : Fields)
    → Precedes acc fs
    → AllAbove k fs
    → Precedes (fields_append acc (field k v no_fields)) fs
unfolding AllAbove
Precedes-append acc k v no_fields h a = tt
Precedes-append acc k v (field l w fs) (b, h) (p, a) =
    (AllBelow-append l k v acc b p, Precedes-append acc k v fs h a)

pub no_fields-Precedes : (fs : Fields) → Precedes no_fields fs
unfolding AllBelow
no_fields-Precedes no_fields = tt
no_fields-Precedes (field k v fs) = (tt, no_fields-Precedes fs)
