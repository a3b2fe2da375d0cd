-- ===== src/Witnesses/Schemas.antt =====
-- The theorems on the order of a schema's tables at concrete inputs.
use edg.Prelude.{ℕ, List, [], ◌∷◌, none, true, false, if◌then◌else◌, ok, err, ◌≡◌, ◌⊎◌, arith}
use edg.Prelude.Text.{Bytes, codes, same, split_from}
use edg.Schema.Tables.{Column, Table, is_skipped, cyclic_dependency, sort_tables}
use edg.Schema.Tables.Counts.{count}
use edg.Prelude.Text.{same_iff}
use edg.Schema.Tables.Parents.{names, Orders}
use edg.Schema.Tables.Sorted.{sort_tables-ends}
use edg.Schema.Tables.Acyclic.{Ranked, sort_tables-Ranked}

abbrev column : Bytes → Bytes → Bytes → Column
column name data_type ref = record {
  name = name;
  data_type = data_type;
  is_nullable = false;
  default = [];
  is_pk = false;
  is_generated = false;
  ref = ref;
  check_min = none;
  check_max = none;
}

abbrev orders : Table
orders = record {
  name = codes "orders";
  create_stmt = codes "CREATE TABLE orders";
  columns =
      column (codes "id") (codes "uuid") []
      ∷ column (codes "user") (codes "int") (codes "users.id")
      ∷ column (codes "parent") (codes "int") (codes "orders.id")
      ∷ [];
}

abbrev users : Table
users = record { name = codes "users"; create_stmt = codes "CREATE TABLE users"; columns = [] }

abbrev keys : List Bytes
keys = codes "users" ∷ codes "orders" ∷ []

differ : (n : Bytes) → same (codes "users") n ≡ true → same (codes "orders") n ≡ false
differ n h = ground (arith, same_iff (codes "users") n, same_iff (codes "orders") n)

keys-Orders : Orders keys (orders ∷ users ∷ [])
unfolding count
keys-Orders = record {
  distinct = λ n. ground (arith, differ n);
  same_names = λ n. ground (arith, differ n);
}

sort_tables-ends_example :
    ((ts : List Table) × (sort_tables keys (orders ∷ users ∷ []) ≡ ok ts))
    ⊎ (sort_tables keys (orders ∷ users ∷ []) ≡ err cyclic_dependency)
sort_tables-ends_example = sort_tables-ends keys (orders ∷ users ∷ []) keys-Orders

-- The length of a name, which is less for the users.
abbrev rank : Bytes → ℕ
rank n = if same n (codes "users") then 0 else 1

tables-Ranked : Ranked rank (names (orders ∷ users ∷ [])) (orders ∷ users ∷ [])
unfolding count same split_from is_skipped
tables-Ranked = ((λ e. cc, (λ e. (omega arith, omega arith), (λ e. cc, tt))), (tt, tt))

sort_tables-Ranked_example : (ts : List Table) × (sort_tables keys (orders ∷ users ∷ []) ≡ ok ts)
sort_tables-Ranked_example =
    sort_tables-Ranked rank keys (orders ∷ users ∷ []) keys-Orders tables-Ranked
