-- ===== src/Tools/Regex/Nesting.antt =====
-- Which patterns the guard accepts.
use ida_mcp.Prelude.{
  ◌≤◌, ◌≡◌, ◌↔◌, ◌⊎◌, inl, inr, Bool, false, Option, none, some, ltb, length, arith, Bool-cases,
  Option-cases,
}
use ida_mcp.Text.{Text}
use ida_mcp.Tools.Regex.{Pattern, check, max_pattern_length, compiled, compile_client_regex}
use ida_mcp.Tools.Regex.Paths.{IsNested}
use ida_mcp.Tools.Regex.Refused.{check-nested}
use ida_mcp.Tools.Regex.Found.{check-finds}

-- The guard refuses a pattern exactly where some repeat of more than one round stands, behind no
-- atomic construct, inside another, and one of the two is unbounded.
pub check-refuses_iff : (p : Pattern) → (check none p ≡ false) ↔ IsNested p
check-refuses_iff p = (λ h. found (check-finds none p h), check-nested none p)
  where
    found : IsNested p ⊎ ⊥ → IsNested p
    found (inl x) = x
    found (inr y) = elim y [ ]

-- A pattern that is compiled is no longer than the limit, and in it no repeat of more than one round
-- stands, behind no atomic construct, inside another where one of the two is unbounded.
pub compile-safe :
    (parse : Text → Option Pattern) (compiles : Text → Bool) (text : Text) (p : Pattern)
    → compile_client_regex parse compiles text ≡ compiled p
    → (length text ≤ max_pattern_length) × (parse text ≡ some p) × (¬ IsNested p)
unfolding compile_client_regex
compile-safe parse compiles text p h = elim (Bool-cases (ltb max_pattern_length (length text))) [
  | inl long ↦ absurd (cc (simp long at h))
  | inr short ↦ elim (Option-cases (parse text)) [
    | inl e ↦ absurd (cc (simp (short, e) at h))
    | inr (q, e) ↦ elim (Bool-cases (check none q)) [
      | inr bad ↦ absurd (cc (simp (short, e, bad) at h))
      | inl good ↦ elim (Bool-cases (compiles text)) [
        | inr fails ↦ absurd (cc (simp (short, e, good, fails) at h))
        | inl accepts ↦
            let same : compiled q ≡ compiled p = simp (short, e, good, accepts) at h in
            (ground arith, cc (e, same), λ n. absurd (cc (check-nested none p n, good, same)))
      ]
    ]
  ]
]
