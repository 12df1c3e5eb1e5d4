-- ===== src/Tools/Regex.antt =====
-- The guard of clients' regular expressions (regex_guard.py: _children, _check, compile_client_regex).
-- A parsed pattern is the tree of re's parser, reduced to what the guard reads: a repeat with its upper
-- bound, an atomic construct, or another construct with the patterns below it.
pub mod Paths
pub mod Refused
pub mod Found
pub mod Nesting
use ida_mcp.Prelude.{
  ℕ, Bool, true, false, not, ◌&&◌, ◌||◌, Option, none, some, List, ltb, length, if◌then◌else◌,
}
use ida_mcp.Text.{Text, lit}

-- The upper bound of a repeat; MAXREPEAT is unbounded.
pub data Times : Type 0 where
  at_most : ℕ → Times
  unbounded : Times

mutual
  pub data Pattern : Type 0 where
    empty : Pattern
    then_ : Op → Pattern → Pattern

  pub data Op : Type 0 where
    repeats : Times → Pattern → Op  -- MAX_REPEAT, MIN_REPEAT
    atomic : Children → Op  -- POSSESSIVE_REPEAT, ATOMIC_GROUP
    plain : Children → Op

  -- The patterns in a construct's argument, in order (_children).
  pub data Children : Type 0 where
    no_more : Children
    child : Pattern → Children → Children

unfoldable pub is_many : Times → Bool
is_many unbounded = true
is_many (at_most n) = ltb 1 n

unfoldable pub is_unbounded : Times → Bool
is_unbounded unbounded = true
is_unbounded (at_most n) = false

-- The test of a repeat that may repeat: `enclosing` is none outside every such repeat.
unfoldable pub clashes : Option Bool → Bool → Bool
clashes none endless = false
clashes (some outer) endless = outer || endless

unfoldable pub within : Option Bool → Bool → Bool
within none endless = endless
within (some outer) endless = outer || endless

-- _check; false: re.error is raised.
unfoldable mutual
  unfolding is_many is_unbounded clashes within

  pub check : Option Bool → Pattern → Bool
  check enclosing empty = true
  check enclosing (then_ o p) = check_op enclosing o && check enclosing p

  pub check_op : Option Bool → Op → Bool
  check_op enclosing (repeats t p) =
      let inner = check (some (within enclosing (is_unbounded t))) p in
      let same = check enclosing p in
      if is_many t then not (clashes enclosing (is_unbounded t)) && inner else same
  check_op enclosing (atomic cs) = check_children none cs
  check_op enclosing (plain cs) = check_children enclosing cs

  pub check_children : Option Bool → Children → Bool
  check_children enclosing no_more = true
  check_children enclosing (child p cs) = check enclosing p && check_children enclosing cs

abbrev pub max_pattern_length : ℕ
max_pattern_length = 1000

pub data Compiled : Type 0 where
  compiled : Pattern → Compiled
  rejected : Compiled  -- re.error, by the guard
  invalid : Compiled  -- re.error, by re

-- compile_client_regex, where `parse` is re's parser and `compiles` says whether re.compile accepts what was parsed.
unfoldable pub compile_client_regex : (Text → Option Pattern) → (Text → Bool) → Text → Compiled
unfolding check
compile_client_regex parse compiles text =
    if ltb max_pattern_length (length text) then rejected else elim (parse text) [
      | none ↦ invalid
      | some p ↦ if check none p then if compiles text then compiled p else invalid else rejected
    ]
