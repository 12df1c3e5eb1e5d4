-- ===== src/Mcp/Protocol/Resources.antt =====
-- Which resources can be read.
use ida_mcp.Prelude.{
  ◌≡◌, ◌↔◌, refl, inl, inr, true, false, none, some, List, [], ◌∷◌, All, Bool-cases,
}
use ida_mcp.Json.{Value}
use ida_mcp.Mcp.Protocol.{Resource, has_that_uri, find_resource}

-- A read finds no resource exactly where none has the URI; what it finds has it.
pub find-none_iff :
    (uri : Value) (rs : List Resource)
    → ((find_resource uri rs ≡ none) ↔ All (λ r. has_that_uri uri r ≡ false) rs)
      × ((r : Resource) → find_resource uri rs ≡ some r → has_that_uri uri r ≡ true)
unfolding find_resource
find-none_iff uri [] = ((λ _. tt, λ _. refl), λ r h. absurd (cc h))
find-none_iff uri (x ∷ xs) = elim (Bool-cases (has_that_uri uri x)) [
  | inl e ↦ simp e ((λ h. absurd (cc h), λ h. absurd (cc (h.0))), λ r h. cc (e, h))
  | inr e ↦
      let (iff, found) = find-none_iff uri xs in
      simp e ((λ h. (refl, iff.0 h), λ h. iff.1 h.1), found)
]
