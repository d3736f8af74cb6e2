-- ===== src/Json/Lookup.antt =====
-- Reading a dict after a change of one of its keys.
use mutmuas.Prelude.{String, ◌≡◌, refl, false, arith, ◌==◌, eq_iff, if◌then◌else◌}
use mutmuas.Json.{Json, Fields, end, field, get_or, put, without}

pub get_or-put :
    (d : Fields) (k j : String) (v x : Json)
    → get_or (put d k v) j x ≡ (if k == j then v else get_or d j x)
get_or-put end k j v x = refl
get_or-put (field i w d) k j v x =
    ground (arith, get_or-put d k j v x, eq_iff i k, eq_iff i j, eq_iff k j)

pub get_or-without :
    (d : Fields) (k j : String) (x : Json)
    → (k == j) ≡ false
    → get_or (without d k) j x ≡ get_or d j x
get_or-without end k j x h = refl
get_or-without (field i w d) k j x h =
    ground (arith, get_or-without d k j x h, eq_iff i k, eq_iff i j, eq_iff k j)
