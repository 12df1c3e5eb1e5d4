-- ===== src/Tests/Episodes.antt =====
-- The debugger's batch mode, scripts, sessions, patches and queries, in small runs.
use ida_mcp.Prelude.{
  ℕ, ◌≡◌, refl, Bool, true, false, Option, none, some, List, [], ◌∷◌, arith, take, keep,
  if◌then◌else◌, ◌==◌, leb, ltb, ◌&&◌, text_eq, nat_eq, ℕ_discrete,
}
use ida_mcp.Prelude.Int.{ℤ, pos, negsuc}
use ida_mcp.Text.{Text, lit}
use ida_mcp.Number.{digit}
use ida_mcp.Mcp.Body.{is_byte_space}
use ida_mcp.Mcp.Sessions.Refinement.{registers, asks, answers, answers-promised}
use ida_mcp.Tools.Debugger.{Launch, launched, Session, timer_fired, happen_all, dbg_start}
use ida_mcp.Tools.Debugger.Batch.{dbg_start-restores}
use ida_mcp.Tools.Limits.{number, parse_addr}
use ida_mcp.Tools.Patch.{
  Database, without_spaces, fromhex, patch_bytes, list_patches, differs, max_patches,
}
use ida_mcp.Tools.Patch.Reverted.{IsDatabase, overlaid, revert_range, patch_bytes-revert}
use ida_mcp.Tools.Patch.Listed.{looked_at, list_patches-takes}
use ida_mcp.Tools.Query.{Row, Query, passes, page, matcher, func_query}
use ida_mcp.Tools.Query.Rows.{IsAnswer, func_query-IsAnswer}
use ida_mcp.Tests.Fixtures.{word}

abbrev settled : Session
settled = record { batch = 0; hooks = record { restore_batch = 1; done = true } ∷ [] }

-- A process comes up at the second look; and a start that is cancelled.
abbrev comes_up : Launch
comes_up = launched (pos 1) (false ∷ true ∷ [])

abbrev is_cancelled : Launch
is_cancelled = launched (pos 0) []

dbg_start-restores_example :
    (happen_all (timer_fired 0 ∷ timer_fired 1 ∷ []) (dbg_start comes_up [] settled).1).batch ≡ 0
unfolding nat_eq dbg_start
dbg_start-restores_example =
    dbg_start-restores comes_up [] (timer_fired 0 ∷ timer_fired 1 ∷ []) settled (refl, tt)

-- After a cancelled start the flag is back at once.
cancelled_start : (dbg_start is_cancelled [] settled).1.batch ≡ 0
unfolding dbg_start nat_eq
cancelled_start = refl

answers-promised_example :
    answers
      (record { table = []; ttl_sec = 3; max_count = 0 })
      (registers (word b'a') 1 ∷ asks (word b'a') 3 ∷ asks (word b'a') 9 ∷ [])
    ≡ true ∷ false ∷ []
unfolding text_eq
answers-promised_example =
    answers-promised 3 (registers (word b'a') 1 ∷ asks (word b'a') 3 ∷ asks (word b'a') 9 ∷ [])
      (omega arith, (omega arith, (omega arith, tt)))

-- A database as a function of the address, of a file of zeros.
abbrev zeros : Database (ℕ → ℕ)
zeros = record {
  is_mapped = λ ea. true;
  get_original_byte = λ ea. 0;
  get_byte = λ d x. d x;
  patch_byte = λ ea b d x. if x == ea then b else d x;
}

zeros-IsDatabase : IsDatabase zeros
zeros-IsDatabase = record { get-patch = λ ea b x d. refl }

abbrev nop_hex : Text
nop_hex = lit "90 9f"

nops : fromhex (without_spaces nop_hex) ≡ some (144 ∷ 159 ∷ [])
unfolding fromhex without_spaces lit nat_eq ℕ_discrete is_byte_space digit
nops = refl

abbrev blank_bytes : ℕ → ℕ
blank_bytes x = 0

patch_bytes-revert_example :
    let d' = (patch_bytes zeros (λ t. none) (number (pos 5)) nop_hex blank_bytes).1 in
    (zeros.get_byte d' 6 ≡ overlaid 5 (144 ∷ 159 ∷ []) 0 6)
    × (zeros.get_byte (revert_range zeros 5 2 d') 6 ≡ (if leb 5 6 && ltb 6 7 then 0 else 0))
unfolding parse_addr
patch_bytes-revert_example =
    patch_bytes-revert zeros (λ t. none) (number (pos 5)) nop_hex 5 (144 ∷ 159 ∷ []) blank_bytes
      zeros-IsDatabase refl nops (λ y lo hi. refl) 6

abbrev one_patch : ℕ → ℕ
one_patch x = if x == 3 then 9 else 0

list_patches-takes_example :
    list_patches zeros one_patch ((2, 5) ∷ [])
    ≡ take max_patches (keep (differs zeros one_patch) (looked_at ((2, 5) ∷ [])))
list_patches-takes_example = list_patches-takes zeros one_patch ((2, 5) ∷ [])

abbrev rows : List Row
rows =
    record { addr = 1; name = word b'a'; size = 7; has_type = true }
    ∷ record { addr = 2; name = word b'b'; size = 3; has_type = false }
    ∷ []

abbrev query : Query
query = record {
  filter_pattern = [];
  name_regex = [];
  min_size = pos 2;
  max_size = negsuc 0;
  has_type = [];
  sort_by = lit "size";
  descending = false;
  offset = negsuc 1;
  count = pos 1;
}

abbrev anything : Text → Bool
anything name = true

func_query-IsAnswer_example :
    (shown : List Row) × (total : ℕ) × (next : Option ℤ) × (func_query
        (λ value pattern. true)
        (λ regex. none)
        rows
        query
      ≡ page shown total next)
    × IsAnswer
        (λ value pattern. true)
        (λ regex. none)
        rows
        query
        (passes (λ value pattern. true) query anything)
        shown
        total
        next
unfolding matcher
func_query-IsAnswer_example =
    func_query-IsAnswer (λ value pattern. true) (λ regex. none) rows query anything refl
