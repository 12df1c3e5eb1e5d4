-- ===== src/Json.antt =====
-- The values of Python that pass through json.loads and json.dumps, and their dict keys.
use ida_mcp.Prelude.{
  ℕ, zero, suc, ◌/◌, ◌%◌, Bool, true, false, Option, none, some, List, [], ◌∷◌, if◌then◌else◌, ◌==◌,
  nat_eq, text_eq, Eq, ℕ_discrete,
}
use ida_mcp.Prelude.Int.{ℤ, pos, negsuc}
use ida_mcp.Prelude.Dict.{Dict}
use ida_mcp.Text.{Text}

-- A double: m / 2 ^ e exactly, an infinity (true: the positive one), or a NaN with its identity.
pub data Float : Type 0 where
  dyadic : ℤ → ℕ → Float
  infinite : Bool → Float
  nan : ℕ → Float

mutual
  pub data Value : Type 0 where
    null : Value
    bool : Bool → Value
    int : ℤ → Value
    float : Float → Value
    str : Text → Value
    arr : Items → Value
    obj : Fields → Value

  pub data Items : Type 0 where
    nil : Items
    cons : Value → Items → Items

  pub data Fields : Type 0 where
    end : Fields
    field : Text → Value → Fields → Fields

abbrev pub fields : Dict Text Value → Fields
fields [] = end
fields ((k, v) ∷ d) = field k v (fields d)

abbrev pub entries : Fields → Dict Text Value
entries end = []
entries (field k v fs) = (k, v) ∷ entries fs

abbrev pub items : List Value → Items
items [] = nil
items (v ∷ vs) = cons v (items vs)

abbrev pub elements : Items → List Value
elements nil = []
elements (cons v vs) = v ∷ elements vs

-- d.get(k); none for a missing key
unfoldable pub get : Text → Fields → Option Value
get k end = none
get k (field j v fs) = if k == j then some v else get k fs

abbrev pub or_null : Option Value → Value
or_null none = null
or_null (some v) = v

abbrev pub is_null : Value → Bool
is_null null = true
is_null _ = false

-- What a value is as a dict key: equal values of different types (1, 1.0, True) are one key.
pub data Key : Type 0 where
  none_key : Key
  text : Text → Key
  number : ℤ → ℕ → Key
  infinity : Bool → Key
  not_a_number : ℕ → Key

Key-dec : Discrete Key
Key-dec = hlevel ℕ_discrete

instance unfoldable pub key_eq : Eq Key
unfolding Key-dec ℕ_discrete
key_eq = record { dec = Key-dec }

-- m / 2 ^ e in lowest terms
lowest : ℤ → ℕ → Key
lowest m zero = number m 0
lowest (pos n) (suc e) = elim (n % 2) [
  | zero ↦ lowest (pos (n / 2)) e
  | suc _ ↦ number (pos n) (suc e)
]
lowest (negsuc n) (suc e) = elim (n % 2) [
  | zero ↦ number (negsuc n) (suc e)
  | suc _ ↦ lowest (negsuc (n / 2)) e
]

-- none: the value is unhashable, and its use as a key raises TypeError
unfoldable pub key_of : Value → Option Key
unfolding lowest
key_of null = some none_key
key_of (bool true) = some (number (pos 1) 0)
key_of (bool false) = some (number (pos 0) 0)
key_of (int i) = some (number i 0)
key_of (float (dyadic m e)) = some (lowest m e)
key_of (float (infinite b)) = some (infinity b)
key_of (float (nan n)) = some (not_a_number n)
key_of (str t) = some (text t)
key_of (arr vs) = none
key_of (obj fs) = none
