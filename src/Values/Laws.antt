-- ===== src/Values/Laws.antt =====
-- Reading a property after a write or a deletion.
use gptsession_bridge.Shared.{
  ◌≡◌, refl, String, Bool, false, arith, string_eq, ◌==◌, ==_iff, if◌then◌else◌,
}
use gptsession_bridge.Values.Data.{Value, Fields, end, field, member, set_property, some_key}

pub member-set :
    (fs : Fields) (k j : String) (v : Value)
    → member (set_property fs k v) j ≡ (if k == j then v else member fs j)
unfolding member set_property
member-set end k j v = refl
member-set (field i w r) k j v =
    ground (arith, ==_iff k j, ==_iff i k, ==_iff i j, member-set r k j v)

pub member-set_self : (fs : Fields) (k : String) (v : Value) → member (set_property fs k v) k ≡ v
member-set_self fs k v = ground (arith, member-set fs k k v, ==_iff k k)

pub some_key-set :
    (p : String → Bool) (fs : Fields) (k : String) (v : Value)
    → p k ≡ false
    → some_key p fs ≡ false
    → some_key p (set_property fs k v) ≡ false
unfolding some_key set_property
some_key-set p end k v h e = ground arith
some_key-set p (field i w r) k v h e = ground (arith, some_key-set p r k v)
