-- ===== src/Compat.antt =====
-- The version of IDA (compat.py: _parse_kernel_version, detect_ida_version, is_ida_ge, is_ida_lt). The
-- getters of the two modules are parameters; of the digits of \d those of ASCII are modelled.
pub mod Versions
use ida_mcp.Prelude.{
  ℕ, ◌+◌, ◌-◌, ◌*◌, Bool, true, false, ◌&&◌, ◌||◌, Option, none, some, List, [], ◌∷◌, ltb, leb,
  if◌then◌else◌, ◌==◌, nat_eq,
}
use ida_mcp.Text.{Text, lit, is_empty}

abbrev pub is_decimal : ℕ → Bool
is_decimal c = leb b'0' c && leb c b'9'

-- int of the digits that go on, after those that give n
unfoldable pub runs : Option ℕ → Text → List ℕ
runs none [] = []
runs (some n) [] = n ∷ []
runs none (c ∷ t) = elim (is_decimal c) [ true ↦ runs (some (c - b'0')) t | false ↦ runs none t ]
runs (some n) (c ∷ t) = elim (is_decimal c) [
  | true ↦ runs (some (n * 10 + (c - b'0'))) t
  | false ↦ n ∷ runs none t
]

abbrev triple : List ℕ → ℕ × ℕ × ℕ
triple [] = (0, 0, 0)
triple (major ∷ []) = (major, 0, 0)
triple (major ∷ minor ∷ []) = (major, minor, 0)
triple (major ∷ minor ∷ patch ∷ rest) = (major, minor, patch)

unfoldable pub parse_kernel_version : Text → ℕ × ℕ × ℕ
unfolding runs
parse_kernel_version v = triple (runs none v)

-- IDA_VERSION, IDA_MAJOR and IDA_MINOR.
pub record Version : Type 0 where
  pub ida_version : Option Text
  pub major : ℕ
  pub minor : ℕ

-- get_kernel_version of a module: none where it has none or where it raises.
unfoldable pub first_version : List (Option Text) → Text
first_version [] = lit "0.0"
first_version (none ∷ gs) = first_version gs
first_version (some v ∷ gs) = let rest = first_version gs in if is_empty v then rest else v

-- detect_ida_version, with the getters of ida_ida and idaapi
unfoldable pub detect_ida_version : List (Option Text) → Version
unfolding first_version parse_kernel_version
detect_ida_version getters =
    let ver = first_version getters in
    let (major, minor, _) = parse_kernel_version ver in
    record { ida_version = some ver; major = major; minor = minor }

abbrev pub detected : List (Option Text) → Version → Version
detected getters s = let now = detect_ida_version getters in if s.major == 0 then now else s

unfoldable pub is_ida_ge : List (Option Text) → ℕ → ℕ → Version → Bool × Version
unfolding detect_ida_version
is_ida_ge getters major minor s =
    let s' = detected getters s in
    (ltb major s'.major || (s'.major == major && leb minor s'.minor), s')

unfoldable pub is_ida_lt : List (Option Text) → ℕ → ℕ → Version → Bool × Version
unfolding detect_ida_version
is_ida_lt getters major minor s =
    let s' = detected getters s in
    (ltb s'.major major || (s'.major == major && ltb s'.minor minor), s')
