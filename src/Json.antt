-- ===== src/Json.antt =====
-- The values that `json.loads` returns and that the pipeline's messages hold. A float is known by its
-- text form; an object keeps its keys in insertion order.
use flow_first.Base.{
  ℕ, String, Bool, true, false, Option, none, some, ◌≡◌, refl, arith, ◌==◌, eq_iff, if◌then◌else◌,
  suc,
}
use flow_first.Base.Int.{ℤ}

mutual
  pub data Json : Type 0 where
    null : Json
    bool : Bool → Json
    int : ℤ → Json
    float : String → Json
    str : String → Json
    arr : Items → Json
    obj : Fields → Json

  pub data Items : Type 0 where
    nil : Items
    cons : Json → Items → Items

  pub data Fields : Type 0 where
    end : Fields
    field : String → Json → Fields → Fields

-- d.get(k)
unfoldable pub get_field : Fields → String → Option Json
get_field end k = none
get_field (field j v d) k = if j == k then some v else get_field d k

-- d[k] = v
unfoldable pub put_field : Fields → String → Json → Fields
put_field end k v = field k v end
put_field (field j w d) k v = if j == k then field j v d else field j w (put_field d k v)

-- {**d, **e}
unfoldable pub merge : Fields → Fields → Fields
merge d end = d
merge d (field k v e) = merge (put_field d k v) e

-- {k: v for k, v in d.items() if k != key}
unfoldable pub without_field : Fields → String → Fields
without_field end k = end
without_field (field j v d) k =
    let rest = without_field d k in if j == k then rest else field j v rest

-- l.append(v)
unfoldable pub append_item : Items → Json → Items
append_item nil v = cons v nil
append_item (cons w l) v = cons w (append_item l v)

unfoldable pub item_count : Items → ℕ
item_count nil = 0
item_count (cons v l) = suc (item_count l)

-- the truth value of an object in Python
unfoldable pub is_truthy : Json → Bool
is_truthy null = false
is_truthy (bool b) = b
is_truthy (int (ℤ.pos n)) = elim n [ ℕ.zero ↦ false | ℕ.suc m ↦ true ]
is_truthy (int (ℤ.negsuc n)) = true
is_truthy (float s) = if s == "0.0" then false else if s == "-0.0" then false else true
is_truthy (str s) = if s == "" then false else true
is_truthy (arr nil) = false
is_truthy (arr (cons v l)) = true
is_truthy (obj end) = false
is_truthy (obj (field k v d)) = true

pub get-put_field :
    (d : Fields) (k j : String) (v : Json)
    → get_field (put_field d k v) j ≡ (if k == j then some v else get_field d j)
unfolding get_field put_field
get-put_field end k j v = refl
get-put_field (field i w d) k j v =
    ground (arith, eq_iff k j, eq_iff i k, eq_iff i j, get-put_field d k j v)

pub get-without_field :
    (d : Fields) (k j : String)
    → get_field (without_field d k) j ≡ (if k == j then none else get_field d j)
unfolding get_field without_field
get-without_field end k j = ground arith
get-without_field (field i w d) k j =
    ground (arith, eq_iff k j, eq_iff i k, eq_iff i j, get-without_field d k j)

pub ruleset field_laws = (get-put_field, get-without_field)

pub item_count-append_item :
    (l : Items) (v : Json) → item_count (append_item l v) ≡ suc (item_count l)
unfolding item_count append_item
item_count-append_item nil v = refl
item_count-append_item (cons w l) v = ground (arith, item_count-append_item l v)
