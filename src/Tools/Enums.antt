-- ===== src/Tools/Enums.antt =====
-- Creating and updating an enum (api_typeinfo.py: enum_upsert). The type library is the record Til; what
-- json.loads gives for the members, and str(), are parameters.
pub mod Merged
use ida_mcp.Prelude.{
  ℕ, ◌+◌, ◌/◌, ◌^◌, Bool, true, false, not, Option, none, some, ◌⊎◌, inl, inr, List, [], ◌∷◌,
  if◌then◌else◌, text_eq,
}
use ida_mcp.Prelude.Int.{ℤ, pos, negsuc, minus}
use ida_mcp.Prelude.Dict.{Dict, insert}
use ida_mcp.Text.{Text, lit}
use ida_mcp.Json.{
  Float, dyadic, infinite, nan, Value, null, bool, int, float, str, arr, obj, Items, nil, cons, get,
}
use ida_mcp.Number.{parse_decimal}
use ida_mcp.Exec.{Result, ok, err, other}

-- What the library has under a name: its members are those read before anything raised, and a look-up
-- that raises is passed over like a missing type.
pub data Named : Type 0 where
  missing : Named
  not_enum : Named
  enum_details : List (Text × ℤ) → Named

-- ida_typeinf on one type library, whose content is a T.
pub record Til (T : Type 0) : Type 0 where
  pub named : Text → T → Named
  pub create_enum : List (Text × ℤ) → Bool
  -- the name, the members and NTF_REPLACE; some: the text of the error
  pub set_named_type : Text → List (Text × ℤ) → Bool → T → Option Text × T

pub data Reply : Type 0 where
  invalid_json : Text → Reply
  not_an_array : Reply
  malformed_member : Reply
  invalid_value : Value → Reply
  other_type : Reply
  not_built : Reply
  not_stored : Text → Reply
  upserted : Bool → List (Text × ℤ) → Reply  -- created, and the members

pub data Number : Type 0 where
  value : ℤ → Number
  unusable : Number  -- TypeError, ValueError
  overflow : Number  -- OverflowError

abbrev number_or : Option ℤ → Number
number_or none = unusable
number_or (some i) = value i

-- int(v)
unfoldable pub int_of : Value → Number
unfolding parse_decimal
int_of (bool b) = value (pos (if b then 1 else 0))
int_of (int i) = value i
int_of (float (dyadic (pos n) e)) = value (pos (n / 2 ^ e))
int_of (float (dyadic (negsuc n) e)) = value (minus ((1 + n) / 2 ^ e))
int_of (float (infinite b)) = overflow
int_of (float (nan i)) = unusable
int_of (str t) = number_or (parse_decimal t)
int_of null = unusable
int_of (arr vs) = unusable
int_of (obj fs) = unusable

-- What the loop over the members ends with: the updates, an answer, or an exception that passes.
pub data Read : Type 0 where
  updates : List (Text × ℤ) → Read
  answer : Reply → Read
  escapes : Read

abbrev before : Text × ℤ → Read → Read
before u (updates us) = updates (u ∷ us)
before u (answer r) = answer r
before u escapes = escapes

abbrev read_value : Text → Value → Number → Read → Read
read_value name shown (value i) rest = before (name, i) rest
read_value name shown unusable rest = answer (invalid_value shown)
read_value name shown overflow rest = escapes

abbrev read_pair : (Value → Text) → Option Value → Option Value → Read → Read
read_pair to_str (some n) (some v) rest = read_value (to_str n) n (int_of v) rest
read_pair to_str _ _ rest = answer malformed_member

abbrev read_member : (Value → Text) → Value → Read → Read
read_member to_str (obj fs) rest =
    read_pair to_str (get (lit "name") fs) (get (lit "value") fs) rest
read_member to_str _ rest = answer malformed_member

unfoldable pub read_members : (Value → Text) → Items → Read
unfolding get int_of
read_members to_str nil = updates []
read_members to_str (cons m ms) = read_member to_str m (read_members to_str ms)

-- for name, value in updates: values[name] = value
unfoldable pub overlay : List (Text × ℤ) → Dict Text ℤ → Dict Text ℤ
overlay [] d = d
overlay ((n, v) ∷ us) d = overlay us (insert n v d)

-- The values to start from, and whether the type is new; none: another type has the name.
unfoldable pub seed : Named → Option (Bool × Dict Text ℤ)
unfolding overlay
seed missing = some (true, [])
seed not_enum = none
seed (enum_details ms) = some (false, overlay ms [])

module _ {T : Type 0} (til : Til T) (name : Text) where
  abbrev pub stored : Bool → List (Text × ℤ) → Option Text × T → Result Reply × T
  stored created d (none, t) = (ok (upserted created d), t)
  stored created d (some e, t) = (ok (not_stored e), t)

  unfoldable pub store : Bool → Dict Text ℤ → T → Result Reply × T
  store created d t =
      if til.create_enum d
      then stored created d (til.set_named_type name d (not created) t)
      else (ok not_built, t)

  abbrev upsert : Option (Bool × Dict Text ℤ) → List (Text × ℤ) → T → Result Reply × T
  upsert none us t = (ok other_type, t)
  upsert (some (created, d)) us t = store created (overlay us d) t

  abbrev apply_read : Read → T → Result Reply × T
  apply_read (updates us) t = upsert (seed (til.named name t)) us t
  apply_read (answer r) t = (ok r, t)
  apply_read escapes t =
      (err (other (lit "OverflowError") (lit "cannot convert float infinity to integer")), t)

  -- json.loads gives a value, or the text of its error.
  unfoldable pub enum_upsert : (Value → Text) → Value ⊎ Text → T → Result Reply × T
  unfolding read_members seed store overlay
  enum_upsert to_str (inr e) t = (ok (invalid_json e), t)
  enum_upsert to_str (inl (arr ms)) t = apply_read (read_members to_str ms) t
  enum_upsert to_str (inl _) t = (ok not_an_array, t)
