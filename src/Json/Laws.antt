-- ===== src/Json/Laws.antt =====
-- Reading after writing, and what the tests of a value say.
use sustainable_fashion_chai.Prelude.{String, ◌≡◌, refl, true, arith, ◌==◌, eq_iff, if◌then◌else◌}
use sustainable_fashion_chai.Json.{Value, str, Fields, end, field, get, set, is_text}

pub get-set :
    (k j : String) (v : Value) (fs : Fields) → get j (set k v fs) ≡ (if k == j then v else get j fs)
unfolding get set
get-set k j v end = refl
get-set k j v (field i w fs) = ground (arith, eq_iff k j, eq_iff i k, eq_iff i j, get-set k j v fs)

pub is_text→eq : (s : String) (v : Value) → is_text s v ≡ true → v ≡ str s
unfolding is_text
is_text→eq s (str t) h = ground (arith, eq_iff t s)
is_text→eq s _ h = ground arith
