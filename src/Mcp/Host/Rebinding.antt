-- ===== src/Mcp/Host/Rebinding.antt =====
-- What a server that is bound to a loopback address serves.
use ida_mcp.Prelude.{
  ◌≡◌, refl, sym, ap, ◌∙◌, ◌↔◌, ◌⊎◌, inl, inr, true, false, not, ◌&&◌, Option, none, some, [], ◌∷◌,
  arith, text_eq, Option-cases, contains,
}
use ida_mcp.Text.{Text, lit, strip, lower, is_empty}
use ida_mcp.Mcp.Host.{
  by_function, passed, check_api_request, cors_localhost, host_header_allowed_for_bind,
  is_loopback_host, loopback_names, name_allowed, origin_allowed, parse_host_header, host_of,
}
use ida_mcp.Mcp.Host.Named.{Names, host_of_iff}

-- One of the three names of the machine itself.
abbrev pub IsLoopback : Text → Type 0
IsLoopback t = (t ≡ lit "localhost") ⊎ (t ≡ lit "127.0.0.1") ⊎ (t ≡ lit "::1")

-- A Host header that names the machine, in any case and with spaces around.
abbrev pub NamesLoopback : Text → Type 0
NamesLoopback h = (n : Text) × Names (strip h) n × IsLoopback (lower (strip n))

loopback_names_iff : (t : Text) → (contains loopback_names t ≡ true) ↔ IsLoopback t
unfolding loopback_names
loopback_names_iff t = ground arith

IsLoopback-iff : (t : Text) → (is_loopback_host (some t) ≡ true) ↔ IsLoopback (lower (strip t))
unfolding is_loopback_host lower strip lit
IsLoopback-iff [] = (
  λ h. absurd (cc h),
  λ h. elim h [
    | inl e ↦ absurd (cc e)
    | inr g ↦ elim g [ inl e ↦ absurd (cc e) | inr e ↦ absurd (cc e) ]
  ],
)
IsLoopback-iff (c ∷ t) = loopback_names_iff (lower (strip (c ∷ t)))

parse-host_of : (h : Text) → parse_host_header (some h) ≡ host_of (strip h)
unfolding parse_host_header host_of strip
parse-host_of [] = refl
parse-host_of (c ∷ t) = refl

-- The Origin header's host, by urlparse, is one of the three names.
abbrev pub FromLoopback : (Text → Option Text) → Text → Type 0
FromLoopback hostname origin = (n : Text) × (hostname origin ≡ some n) × IsLoopback n

module _ (hostname : Text → Option Text) (bound_host : Text)
    (bound : IsLoopback (lower (strip bound_host))) where
  here : is_loopback_host (some bound_host) ≡ true
  here = (IsLoopback-iff bound_host).1 bound

  name_allowed-loopback : (n : Text) → name_allowed bound_host (some n) ≡ is_loopback_host (some n)
  unfolding name_allowed
  name_allowed-loopback n = rw here refl

  allowed-named :
      (h : Text) → host_header_allowed_for_bind bound_host (some h) ≡ true → NamesLoopback h
  unfolding host_header_allowed_for_bind name_allowed
  allowed-named h p = elim (Option-cases (host_of (strip h))) [
    | inl e ↦ absurd (cc (rw (parse-host_of h ∙ e, host_header_allowed_for_bind) at p))
    | inr (n, e) ↦ (
      n,
      (host_of_iff (strip h) n).0 e,
      (IsLoopback-iff n).0 (
          sym (name_allowed-loopback n)
          ∙ ap (name_allowed bound_host) (sym (parse-host_of h ∙ e))
          ∙ p),
    )
  ]

  named-allowed :
      (h : Text) → NamesLoopback h → host_header_allowed_for_bind bound_host (some h) ≡ true
  unfolding host_header_allowed_for_bind
  named-allowed h (n, names, is) =
      ap (name_allowed bound_host) (parse-host_of h ∙ (host_of_iff (strip h) n).1 names)
      ∙ name_allowed-loopback n
      ∙ (IsLoopback-iff n).1 is

  host-allowed_iff :
      (host : Option Text)
      → (host_header_allowed_for_bind bound_host host ≡ true)
        ↔ ((host ≡ none) ⊎ ((h : Text) × (host ≡ some h) × NamesLoopback h))
  unfolding host_header_allowed_for_bind
  host-allowed_iff none = (λ _. inl refl, λ _. refl)
  host-allowed_iff (some h) = (
    λ p. inr (h, refl, allowed-named h p),
    λ p. elim p [ inl q ↦ absurd (cc q) | inr (g, e, is) ↦ rw e (named-allowed g is) ],
  )

  cors_iff :
      (origin : Text) → (cors_localhost hostname origin ≡ true) ↔ FromLoopback hostname origin
  unfolding cors_localhost
  cors_iff origin = elim (Option-cases (hostname origin)) [
    | inl e ↦ rw (e, cors_localhost) (λ p. absurd (cc p), λ (n, f, is). absurd (cc f))
    | inr (n, e) ↦ (
      λ p. (n, e, (loopback_names_iff n).0 (rw (e, cors_localhost) at p)),
      λ (m, f, is). rw (f, cors_localhost) ((loopback_names_iff m).1 is),
    )
  ]

  origin-allowed_iff :
      (origin : Text)
      → ((not (is_empty origin)
            && not (origin_allowed (by_function (cors_localhost hostname)) origin))
          ≡ false)
        ↔ ((origin ≡ []) ⊎ (cors_localhost hostname origin ≡ true))
  unfolding origin_allowed
  origin-allowed_iff [] = (λ _. inl refl, λ _. refl)
  origin-allowed_iff (c ∷ t) = ground arith

  -- A server that is bound to a loopback address, with the default origin policy, serves exactly the
  -- requests whose Host header, if there is one, names localhost, 127.0.0.1 or ::1 (bare, before a port or
  -- in brackets, in any case), and whose Origin header, if it is not empty, has one of them as its host.
  pub check-passed_iff :
      (host : Option Text) (origin : Text)
      → (check_api_request (by_function (cors_localhost hostname)) bound_host host origin ≡ passed)
        ↔ (((host ≡ none) ⊎ ((h : Text) × (host ≡ some h) × NamesLoopback h))
            × ((origin ≡ []) ⊎ FromLoopback hostname origin))
  unfolding check_api_request
  check-passed_iff host origin = (
    λ h. (
      (host-allowed_iff host).0 (ground arith),
      elim ((origin-allowed_iff origin).0 (ground arith)) [
        | inl e ↦ inl e
        | inr e ↦ inr ((cors_iff origin).0 e)
      ],
    ),
    λ (p, q).
        let a = (host-allowed_iff host).1 p in
        let b =
          (origin-allowed_iff origin).1
            (elim q [ inl e ↦ inl e | inr e ↦ inr ((cors_iff origin).1 e) ]) in
        ground (arith, a, b),
  )
