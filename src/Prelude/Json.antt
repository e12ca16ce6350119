-- ===== src/Prelude/Json.antt =====
-- JSON documents as `json.loads` returns them, and the operations of Python's dictionaries,
-- lists and scalars that the program applies to them. A float is the dyadic fraction m / 2 ^ k that
-- a finite double is; NaN and the infinities, which are no JSON, are left out.
use Prim.Native.Nat.{ℕ, zero, suc, ◌+◌, ◌-◌, ◌*◌, ◌/◌, ◌^◌}
use Prim.Native.Char.{code}
use Prim.Native.String.{String}
use mathlib.Core.Bool.{Bool, true, false, ◌&&◌}
use mathlib.Core.Option
use mathlib.Core.Option.{Option, none, some}
use mathlib.Core.List.{List, [], ◌∷◌}
use liqi_platform.Prelude.Tests.{nat_beq, leb, if◌then◌else◌}
use liqi_platform.Prelude.Equality.{◌==◌, string_eq}
use liqi_platform.Prelude.Texts.{strip}
use liqi_platform.Prelude.Int.{ℤ, pos, negsuc, beq_ℤ}

mutual
  pub data Json : Type 0 where
    null : Json
    bool : Bool → Json
    int : ℤ → Json
    float : ℤ → ℕ → Json
    str : String → Json
    arr : Items → Json
    obj : Fields → Json

  pub data Items : Type 0 where
    nil : Items
    cons : Json → Items → Items

  pub data Fields : Type 0 where
    end : Fields
    field : String → Json → Fields → Fields

-- A JSON object's members have distinct names: the first one is the only one.
abbrev pub lookup : String → Fields → Option Json
lookup k end = none
lookup k (field j v fs) = if j == k then some v else lookup k fs

-- `document.get(key)` on an object; on anything else it raises `AttributeError` (`none`).
abbrev pub get : String → Json → Option Json
get k (obj fs) = lookup k fs
get k _ = none

abbrev pub items : Items → List Json
items nil = []
items (cons x xs) = x ∷ items xs

abbrev pub members : Fields → List (String × Json)
members end = []
members (field k v fs) = (k, v) ∷ members fs

-- A literal dictionary.
abbrev pub fields : List (String × Json) → Fields
fields [] = end
fields (m ∷ ms) = field m.0 m.1 (fields ms)

abbrev pub object : List (String × Json) → Json
object ms = obj (fields ms)

-- `type(value).__name__`
abbrev pub type_name : Json → String
type_name null = "NoneType"
type_name (bool b) = "bool"
type_name (int n) = "int"
type_name (float m k) = "float"
type_name (str s) = "str"
type_name (arr xs) = "list"
type_name (obj fs) = "dict"

abbrev pub from_list : List Json → Items
from_list [] = nil
from_list (x ∷ xs) = cons x (from_list xs)

-- `document.get(key, [])`, where the value is a list.
abbrev pub elements : Option Json → List Json
elements (some (arr xs)) = items xs
elements _ = []

-- `value == text`
abbrev pub is_text : String → Option Json → Bool
is_text s (some (str t)) = t == s
is_text s _ = false

-- `value is True`
abbrev pub is_true : Option Json → Bool
is_true (some (bool true)) = true
is_true _ = false

-- `value is False`
abbrev pub is_false : Option Json → Bool
is_false (some (bool false)) = true
is_false _ = false

-- `value is None`, a missing key included.
abbrev pub is_none : Option Json → Bool
is_none none = true
is_none (some null) = true
is_none _ = false

abbrev pub as_text : Option Json → Option String
as_text (some (str s)) = some s
as_text _ = none

-- `isinstance(value, dict)`
abbrev pub is_object : Json → Bool
is_object (obj fs) = true
is_object _ = false

-- `bool(value)`
abbrev pub truthy : Option Json → Bool
truthy none = false
truthy (some null) = false
truthy (some (bool b)) = b
truthy (some (int (pos zero))) = false
truthy (some (float (pos zero) k)) = false
truthy (some (str String.[])) = false
truthy (some (arr nil)) = false
truthy (some (obj end)) = false
truthy _ = true

abbrev pub count_items : Items → ℕ
count_items nil = 0
count_items (cons x xs) = suc (count_items xs)

abbrev pub count_fields : Fields → ℕ
count_fields end = 0
count_fields (field k v fs) = suc (count_fields fs)

-- `True == 1` and `False == 0`
abbrev pub bool_to_int : Bool → ℤ
bool_to_int true = pos 1
bool_to_int false = pos 0

-- n * 2 ^ k
abbrev pub scale : ℕ → ℤ → ℤ
scale k (pos n) = pos (n * 2 ^ k)
scale k (negsuc n) = negsuc (suc n * 2 ^ k - 1)

abbrev pub negate : ℕ → ℤ
negate zero = pos 0
negate (suc n) = negsuc n

-- `int(value)` of the float m / 2 ^ k: towards zero.
abbrev pub truncate : ℤ → ℕ → ℤ
truncate (pos n) k = pos (n / 2 ^ k)
truncate (negsuc n) k = negate (suc n / 2 ^ k)

-- Python's `==`: dictionaries are equal whatever the order of their members.
unfoldable mutual
  pub json_eq : Json → Json → Bool
  json_eq null null = true
  json_eq (bool a) (bool b) = beq_ℤ (bool_to_int a) (bool_to_int b)
  json_eq (bool a) (int b) = beq_ℤ (bool_to_int a) b
  json_eq (bool a) (float b k) = beq_ℤ (scale k (bool_to_int a)) b
  json_eq (int a) (int b) = beq_ℤ a b
  json_eq (int a) (bool b) = beq_ℤ a (bool_to_int b)
  json_eq (int a) (float b k) = beq_ℤ (scale k a) b
  json_eq (float a j) (float b k) = beq_ℤ (scale k a) (scale j b)
  json_eq (float a j) (int b) = beq_ℤ a (scale j b)
  json_eq (float a j) (bool b) = beq_ℤ a (scale j (bool_to_int b))
  json_eq (str a) (str b) = a == b
  json_eq (arr xs) (arr ys) = items_eq xs ys
  json_eq (obj fs) (obj gs) = nat_beq (count_fields fs) (count_fields gs) && fields_in fs gs
  json_eq _ _ = false

  items_eq : Items → Items → Bool
  items_eq nil nil = true
  items_eq (cons x xs) (cons y ys) = json_eq x y && items_eq xs ys
  items_eq _ _ = false

  fields_in : Fields → Fields → Bool
  fields_in end gs = true
  fields_in (field k v fs) gs =
      (elim (lookup k gs) [ none ↦ false | some w ↦ json_eq v w ]) && fields_in fs gs

-- `a.get(k) == b.get(k)`: a missing key reads as `None`.
abbrev pub get_eq : Option Json → Option Json → Bool
get_eq none none = true
get_eq none (some null) = true
get_eq (some null) none = true
get_eq (some a) (some b) = json_eq a b
get_eq _ _ = false

-- The digits of `int(text)`, with single underscores between them.
abbrev digits_value : ℕ → Bool → String → Option ℕ
digits_value n after_digit String.[] = if after_digit then some n else none
digits_value n after_digit (String.◌∷◌ c s) =
    let d = code c in
    let digit = digits_value (10 * n + (d - b'0')) true s in
    let underscore = digits_value n false s in
    if leb b'0' d && leb d b'9'
    then digit
    else if nat_beq d b'_' && after_digit
    then underscore
    else none

abbrev signed : String → Option ℤ
signed String.[] = none
signed (String.◌∷◌ c s) =
    if nat_beq (code c) b'-'
    then Option.map negate (digits_value 0 false s)
    else if nat_beq (code c) b'+'
    then Option.map pos (digits_value 0 false s)
    else Option.map pos (digits_value 0 false (String.◌∷◌ c s))

-- `int(value)` on ASCII digits; `none` where it raises `TypeError` or `ValueError`.
unfoldable pub int_of : Option Json → Option ℤ
unfolding strip
int_of (some (int n)) = some n
int_of (some (bool b)) = some (bool_to_int b)
int_of (some (float m k)) = some (truncate m k)
int_of (some (str s)) = signed (strip s)
int_of _ = none
