-- ===== src/Mcp/Access/Rules.antt =====
-- What the gates of tools/list and tools/call allow.
use ida_mcp.Prelude.{
  ℕ, ◌≡◌, ◌↔◌, inl, inr, true, Option, none, some, [], ◌∷◌, arith, text_eq, Option-cases, mem-keep,
}
use mathlib.Core.List.{Mem}
use ida_mcp.Text.{Text}
use ida_mcp.Json.{Key, text}
use ida_mcp.Mcp.Server.{Server, Context, Tool}
use ida_mcp.Mcp.Access.{
  auth_ok, get_tool_extension, denial, extension_denial, profile_denial, enabled_groups, is_listed,
  is_ascii, expects, tokens_match, compare_digest, extension_open, listed_tools, MayCall,
}

module _ (s : Server) (x : Context) where
  module _ (name : Key) where
    -- tools/call looks at the tool exactly when the token, the unsafe flag, the extension groups and
    -- the profile of the request allow its name.
    pub denial-none_iff : (denial s x name ≡ none) ↔ MayCall s x name
    unfolding denial extension_denial profile_denial enabled_groups
    denial-none_iff = (
      λ h. record {
        unsafe_needs = λ m. ground arith;
        group_needs = λ group e. ground arith;
        profile_needs = elim (Option-cases (get_tool_extension s.extensions_registry name)) [
          | inl e ↦ ground arith
          | inr (g, e) ↦ ground arith
        ];
      },
      λ m. elim (Option-cases (get_tool_extension s.extensions_registry name)) [
        | inl e ↦ ground (arith, m.unsafe_needs, m.profile_needs)
        | inr (g, e) ↦ ground (arith, m.unsafe_needs, m.profile_needs, m.group_needs g e)
      ],
    )

  -- A registered name passes the gates of tools/call exactly when tools/list would list it.
  pub is_listed_iff : (name : Text) → (is_listed s x name ≡ true) ↔ (denial s x (text name) ≡ none)
  unfolding is_listed denial extension_denial profile_denial enabled_groups extension_open
  is_listed_iff name = elim (Option-cases (get_tool_extension s.extensions_registry (text name))) [
    | inl e ↦ ground arith
    | inr (g, e) ↦ ground arith
  ]

  -- tools/list names exactly the registered tools that tools/call would let through.
  pub mem-listed_tools :
      (name : Text) (tool : Tool)
      → Mem (name, tool) (listed_tools s x) ↔ (Mem (name, tool) s.tools × MayCall s x (text name))
  unfolding listed_tools
  mem-listed_tools name tool =
      let kept = mem-keep (λ ((n, t) : Text × Tool). is_listed s x n) s.tools (name, tool) in
      (
        λ m. ((kept.0 m).0, (denial-none_iff (text name)).0 ((is_listed_iff name).0 (kept.0 m).1)),
        λ (m, h). kept.1 (m, (is_listed_iff name).1 ((denial-none_iff (text name)).1 h)),
      )

  -- A server whose token is set accepts exactly the requests that present it, and none at all if the
  -- token has a character outside ASCII.
  pub auth_ok_iff :
      (c : ℕ) (t : Text)
      → s.auth_token ≡ some (c ∷ t)
      → (auth_ok s x ≡ true) ↔ ((x.token ≡ some (c ∷ t)) × (is_ascii (c ∷ t) ≡ true))
  unfolding auth_ok expects tokens_match compare_digest
  auth_ok_iff c t e = rw (e, auth_ok) (with_token x.token)
    where
      with_token :
          (o : Option Text)
          → (expects (some (c ∷ t)) o ≡ true) ↔ ((o ≡ some (c ∷ t)) × (is_ascii (c ∷ t) ≡ true))
      with_token none = (λ h. absurd (cc h), λ h. absurd (cc (h.0)))
      with_token (some []) = (λ h. absurd (cc h), λ h. absurd (cc (h.0)))
      with_token (some (d ∷ u)) = ground arith
