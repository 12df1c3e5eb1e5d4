-- ===== src/Instances.antt =====
-- The registry of running instances (ida_mcp/discovery.py: register_instance, unregister_instance,
-- discover_instances). The directory is a list of files by name; what a file holds, and whether a process
-- lives and a port answers, is given.
pub mod Stale
use ida_mcp.Prelude.{
  ℕ, Bool, true, false, not, ◌&&◌, Option, none, some, List, [], ◌∷◌, keep, ltb, if◌then◌else◌,
  ◌==◌, text_eq, nat_eq,
}
use ida_mcp.Prelude.Dict.{Dict, insert, erase, lookup}
use ida_mcp.Text.{Text}

pub record Info : Type 0 where
  pub host : Text
  pub port : ℕ
  pub pid : ℕ
  pub started_at : Text

-- What json.load makes of a file: none for an unreadable one, and one that lacks a key.
abbrev pub Entry : Type 0
Entry = Option Info

abbrev pub Directory : Type 0
Directory = Dict ℕ Entry  -- by the port in the file's name

unfoldable pub is_running : (ℕ → Bool) → (Text → ℕ → Bool) → Entry → Bool
is_running alive probe none = false
is_running alive probe (some i) = alive i.pid && probe i.host i.port

-- x < y of two texts
unfoldable pub text_ltb : Text → Text → Bool
text_ltb [] [] = false
text_ltb [] (c ∷ t) = true
text_ltb (b ∷ s) [] = false
text_ltb (b ∷ s) (c ∷ t) =
    let rest = text_ltb s t in if ltb b c then true else if ltb c b then false else rest

-- list.sort by started_at: stable, so an entry goes before the first that is later than it.
unfoldable pub sorted_in : Info → List Info → List Info
unfolding text_ltb
sorted_in i [] = i ∷ []
sorted_in i (j ∷ js) =
    let rest = sorted_in i js in if text_ltb j.started_at i.started_at then j ∷ rest else i ∷ j ∷ js

unfoldable pub sort_started : List Info → List Info
unfolding sorted_in
sort_started [] = []
sort_started (i ∷ is) = sorted_in i (sort_started is)

unfoldable pub infos : Directory → List Info
infos [] = []
infos ((name, none) ∷ d) = infos d
infos ((name, some i) ∷ d) = i ∷ infos d

-- discover_instances: the instances, and the directory without the stale files
unfoldable pub discover_instances :
    (ℕ → Bool) → (Text → ℕ → Bool) → Directory → List Info × Directory
unfolding infos sort_started is_running
discover_instances alive probe d =
    let left = keep (λ (name, e). is_running alive probe e) d in (sort_started (infos left), left)

unfoldable pub register_instance : Info → Directory → Directory
register_instance i d = insert i.port (some i) d

unfoldable pub unregister_instance : ℕ → Directory → Directory
unregister_instance port d = erase port d
