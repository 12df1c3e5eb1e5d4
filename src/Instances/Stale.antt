-- ===== src/Instances/Stale.antt =====
-- Which instances are found, and which files are left.
use ida_mcp.Prelude.{
  ℕ, ◌≡◌, refl, inl, inr, Bool, List, [], ◌∷◌, keep, nat_eq, text_eq, Bool-cases, ap,
}
use ida_mcp.Text.{Text}
use ida_mcp.Instances.{Directory, is_running, infos, sort_started, discover_instances}

keep-keep : {A : Type 0} (p : A → Bool) (xs : List A) → keep p (keep p xs) ≡ keep p xs
keep-keep p [] = refl
keep-keep p (x ∷ xs) = elim (Bool-cases (p x)) [
  | inl e ↦ rw (e, e) (ap (λ t. x ∷ t) (keep-keep p xs))
  | inr e ↦ rw e (keep-keep p xs)
]

-- Looking again, while the same processes live and the same ports answer, finds the same instances
-- and removes no file.
pub discover-discover :
    (alive : ℕ → Bool) (probe : Text → ℕ → Bool) (d : Directory)
    → discover_instances alive probe (discover_instances alive probe d).1
      ≡ discover_instances alive probe d
unfolding discover_instances
discover-discover alive probe d =
    ap (λ t. (sort_started (infos t), t)) (keep-keep (λ (name, e). is_running alive probe e) d)
