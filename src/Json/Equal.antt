-- ===== src/Json/Equal.antt =====
-- `==` of Python on the values that `json.loads` gives: a boolean is the number 0 or 1, and a dict has
-- no order.
use moon_mqtt_client.Base.{Bool, true, false, ◌&&◌, ◌==◌, Option, none, some, str_eq, length}
use moon_mqtt_client.Base.Int.{pos, Float, finite, infinite, ratio_eq}
use moon_mqtt_client.Json.{
  Json, null, bool, int, float, str, arr, obj, Items, nil, cons, Fields, end, field, get, keys,
}

abbrev number_of : Json → Option Float
number_of (bool true) = some (finite (pos 1) 0)
number_of (bool false) = some (finite (pos 0) 0)
number_of (int n) = some (finite n 0)
number_of (float x) = some x
number_of _ = none

abbrev floats_eq : Float → Float → Bool
floats_eq (finite a j) (finite b k) = ratio_eq a j b k
floats_eq infinite infinite = true
floats_eq _ _ = false

abbrev numbers_eq : Option Float → Option Float → Bool
numbers_eq (some x) (some y) = floats_eq x y
numbers_eq _ _ = false

unfoldable mutual
  pub json_eq : Json → Json → Bool
  json_eq null null = true
  json_eq (str s) (str t) = str_eq s t
  json_eq (arr xs) (arr ys) = items_eq xs ys
  json_eq (obj fs) (obj gs) = length (keys fs) == length (keys gs) && fields_in fs gs
  json_eq a b = numbers_eq (number_of a) (number_of b)

  pub items_eq : Items → Items → Bool
  items_eq nil nil = true
  items_eq (cons x xs) (cons y ys) = json_eq x y && items_eq xs ys
  items_eq _ _ = false

  -- Every field of the first is in the second.
  pub fields_in : Fields → Fields → Bool
  fields_in end gs = true
  fields_in (field k v fs) gs =
      elim (get k gs) [ none ↦ false | some u ↦ json_eq v u ] && fields_in fs gs
