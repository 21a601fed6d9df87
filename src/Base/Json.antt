-- ===== src/Base/Json.antt =====
-- JSON documents as Python holds them. A float is its IEEE 754 bit pattern.
use codex_py.Base.{
  Bool, List, Option, Result, String, ap, if◌then◌else◌, key_error, nat_eq, other_error, some, ℕ,
  ◌==◌, ◌≡◌,
}
use codex_py.Base.Errors.{other_error, Result, ok, err, type_error, key_error}
use codex_py.Base.Tests.{◌==◌, string_eq, if◌then◌else◌}
use Prim.Native.Nat.{ℕ}
use Prim.Native.String.{String}
use mathlib.Core.Path.{◌≡◌, refl, ap}
use mathlib.Core.Bool.{Bool}
use mathlib.Core.Option.{Option, none, some}
use mathlib.Core.List.{List, [], ◌∷◌}

-- `negsuc n` is -(n + 1).
pub data ℤ : Type 0 where
  pos : ℕ → ℤ
  negsuc : ℕ → ℤ

mutual
  pub data Json : Type 0 where
    null : Json
    bool : Bool → Json
    int : ℤ → Json
    float : ℕ → Json
    str : String → Json
    arr : Items → Json
    obj : Fields → Json

  pub data Items : Type 0 where
    nil : Items
    cons : Json → Items → Items

  pub data Fields : Type 0 where
    end : Fields
    field : String → Json → Fields → Fields

abbrev pub items : List Json → Items
items [] = nil
items (x ∷ xs) = cons x (items xs)

abbrev pub list_of : Items → List Json
list_of nil = []
list_of (cons x xs) = x ∷ list_of xs

abbrev pub get : String → Fields → Option Json
get k end = none
get k (field j v fs) = let rest = get k fs in if j == k then some v else rest

abbrev pub or_key_error : String → Option Json → Result Json
or_key_error k none = err (key_error k)
or_key_error k (some v) = ok v

-- `value["k"]`
abbrev pub index : Json → String → Result Json
index (obj fs) k = or_key_error k (get k fs)
index _ k = err (type_error "indices must be integers")

abbrev pub or_default : Json → Option Json → Json
or_default d none = d
or_default d (some v) = v

-- `value.get("k", default)`
abbrev pub index_or : Json → String → Json → Result Json
index_or (obj fs) k d = ok (or_default d (get k fs))
index_or _ k d = err (other_error "AttributeError: object has no attribute 'get'")

abbrev pub chars : String → List Json
chars String.[] = []
chars (String.◌∷◌ c s) = str (String.◌∷◌ c String.[]) ∷ chars s

abbrev pub keys : Fields → List Json
keys end = []
keys (field k v fs) = str k ∷ keys fs

-- `for item in value`
abbrev pub iterate : Json → Result (List Json)
iterate (arr xs) = ok (list_of xs)
iterate (str s) = ok (chars s)
iterate (obj fs) = ok (keys fs)
iterate _ = err (type_error "object is not iterable")

pub list_of-items : (xs : List Json) → list_of (items xs) ≡ xs
list_of-items [] = refl
list_of-items (x ∷ xs) = ap (λ ys. x ∷ ys) (list_of-items xs)
