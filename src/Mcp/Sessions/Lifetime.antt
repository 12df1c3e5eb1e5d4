-- ===== src/Mcp/Sessions/Lifetime.antt =====
-- How long a session lives.
use ida_mcp.Prelude.{
  ℕ, suc, ◌+◌, ◌≤◌, ◌<◌, ◌≡◌, ◌≢◌, refl, ap, ◌⊎◌, inl, inr, Bool, true, false, not, none, some, [],
  ◌∷◌, ◌++◌, ltb, length, keep, text_eq, arith, Bool-cases,
}
use ida_mcp.Prelude.Dict.{Dict, lookup, insert, erase, lookup-erase_self}
use ida_mcp.Text.{Text}
use ida_mcp.Mcp.Sessions.{
  Sessions, is_expired, trim, drop_expired, prune_table, register_http_session, has_http_session,
}

pub insert-absent :
    (k : Text) (v : ℕ) (d : Dict Text ℕ) → lookup k d ≡ none → insert k v d ≡ d ++ (k, v) ∷ []
unfolding insert lookup
insert-absent k v [] h = refl
insert-absent k v ((j, w) ∷ d) h = ground (arith, insert-absent k v d)

length-trim-le : (m : ℕ) (d : Dict Text ℕ) → length (trim m d) ≤ m
unfolding trim
length-trim-le m [] = omega arith
length-trim-le m ((k, t) ∷ d) = ground (arith, length-trim-le m d)

lookup-append_last :
    (k : Text) (t : ℕ) (d : Dict Text ℕ) → lookup k d ≡ none → lookup k (d ++ (k, t) ∷ []) ≡ some t
unfolding lookup
lookup-append_last k t [] h = ground arith
lookup-append_last k t ((j, u) ∷ d) h = ground (arith, lookup-append_last k t d)

lookup-tail_none :
    (k j : Text) (u : ℕ) (d : Dict Text ℕ)
    → lookup k ((j, u) ∷ d) ≡ none
    → (k ≢ j) × (lookup k d ≡ none)
unfolding lookup
lookup-tail_none k j u d h = ground arith

lookup-cons_none :
    (k j : Text) (u : ℕ) (d : Dict Text ℕ)
    → k ≢ j
    → lookup k d ≡ none
    → lookup k ((j, u) ∷ d) ≡ none
unfolding lookup
lookup-cons_none k j u d differ h = ground arith

-- `d` ends in the entry of `k`, its only one.
abbrev EndsIn : Text → ℕ → Dict Text ℕ → Type 0
EndsIn k t d = (d' : Dict Text ℕ) × (d ≡ d' ++ (k, t) ∷ []) × (lookup k d' ≡ none)

-- The last entry survives, if the bound leaves room for one.
trim-last :
    (m : ℕ) (k : Text) (t : ℕ) (d : Dict Text ℕ)
    → 0 < m
    → lookup k d ≡ none
    → EndsIn k t (trim m (d ++ (k, t) ∷ []))
unfolding trim
trim-last m k t [] room h = ([], ground arith, h)
trim-last m k t ((j, u) ∷ d) room h =
    let (differ, below) = lookup-tail_none k j u d h in
    elim (Bool-cases (ltb m (suc (length (d ++ (k, t) ∷ []))))) [
      | inl over ↦ rw over (trim-last m k t d room below)
      | inr fits ↦ rw fits ((j, u) ∷ d, refl, h)
    ]

keep-last :
    (p : Text × ℕ → Bool) (k : Text) (t : ℕ) (d : Dict Text ℕ)
    → p (k, t) ≡ true
    → lookup k d ≡ none
    → EndsIn k t (keep p (d ++ (k, t) ∷ []))
unfolding lookup
keep-last p k t [] kept h = ([], rw kept, refl)
keep-last p k t ((j, u) ∷ d) kept h =
    let (differ, below) = lookup-tail_none k j u d h in
    let (d', e, absent) = keep-last p k t d kept below in
    elim (Bool-cases (p (j, u))) [
      | inl q ↦ ((j, u) ∷ d', rw (q, e), lookup-cons_none k j u d' differ absent)
      | inr q ↦ (d', rw (q, e), absent)
    ]

prune-length :
    (s : Sessions) (now : ℕ) (d : Dict Text ℕ)
    → 0 < s.max_count
    → length (prune_table s now d) ≤ s.max_count
unfolding prune_table
prune-length s now d h = ground (arith, length-trim-le s.max_count (drop_expired s.ttl_sec now d))

-- A bounded table never holds more than max_count sessions after a registration.
pub length-register :
    (id : Text) (now : ℕ) (s : Sessions)
    → 0 < s.max_count
    → length (register_http_session id now s).table ≤ s.max_count
unfolding register_http_session
length-register id now s h = prune-length s now _ h

drop_expired-last :
    (ttl now : ℕ) (k : Text) (t : ℕ) (d : Dict Text ℕ)
    → (ttl ≡ 0) ⊎ (now ≤ t + ttl)
    → lookup k d ≡ none
    → EndsIn k t (drop_expired ttl now (d ++ (k, t) ∷ []))
unfolding drop_expired
drop_expired-last ttl now k t d fresh h = elim (Bool-cases (ltb 0 ttl)) [
  | inl timed ↦ rw timed (keep-last _ k t d (ground arith) h)
  | inr untimed ↦ rw untimed (d, refl, h)
]

-- A last entry that has not expired survives a pruning, whatever the bound.
prune-last :
    (s : Sessions) (now : ℕ) (k : Text) (t : ℕ) (d : Dict Text ℕ)
    → (s.ttl_sec ≡ 0) ⊎ (now ≤ t + s.ttl_sec)
    → lookup k d ≡ none
    → EndsIn k t (prune_table s now (d ++ (k, t) ∷ []))
unfolding prune_table
prune-last s now k t d fresh h =
    let (d', e, absent) = drop_expired-last s.ttl_sec now k t d fresh h in
    elim (Bool-cases (ltb 0 s.max_count)) [
      | inl bounded ↦ rw (bounded, e) (trim-last s.max_count k t d' (ground arith) absent)
      | inr unbounded ↦ rw (unbounded, e) (d', refl, absent)
    ]

pruned-has :
    (s : Sessions) (now : ℕ) (id : Text) (t : ℕ) (d : Dict Text ℕ)
    → (s.ttl_sec ≡ 0) ⊎ (now ≤ t + s.ttl_sec)
    → lookup id d ≡ none
    → s.table ≡ d ++ (id, t) ∷ []
    → (has_http_session id now s).0 ≡ true
unfolding has_http_session
pruned-has s now id t d fresh h e =
    let (d', p, absent) = prune-last s now id t d fresh h in
    ground (arith, ap (prune_table s now) e, p, ap (lookup id) p, lookup-append_last id t d' absent)

-- A session is known from its registration until its time to live has passed since, whatever the
-- table held before and however full it was.
pub has-register :
    (id : Text) (now later : ℕ) (s : Sessions)
    → (s.ttl_sec ≡ 0) ⊎ (later ≤ now + s.ttl_sec)
    → now ≤ later
    → (has_http_session id later (register_http_session id now s)).0 ≡ true
unfolding register_http_session
has-register id now later s alive ordered =
    let gone = lookup-erase_self id s.table in
    let (d', e, absent) = prune-last s now id now (erase id s.table) (ground arith) gone in
    pruned-has _ later id now d' alive absent (rw (insert-absent id now (erase id s.table) gone) e)

abbrev pub AllOld : Text → ℕ → ℕ → Dict Text ℕ → Type 0
AllOld id ttl now [] = Unit
AllOld id ttl now ((k, t) ∷ d) = (id ≡ k → t + ttl < now) × AllOld id ttl now d

keep-AllOld :
    (id : Text) (ttl now : ℕ) (d : Dict Text ℕ)
    → AllOld id ttl now d
    → lookup id (keep (λ (k, t). not (is_expired ttl now t)) d) ≡ none
unfolding lookup
keep-AllOld id ttl now [] h = refl
keep-AllOld id ttl now ((k, t) ∷ d) h = ground (arith, keep-AllOld id ttl now d h.1, h.0)

trim-none : (m : ℕ) (id : Text) (d : Dict Text ℕ) → lookup id d ≡ none → lookup id (trim m d) ≡ none
unfolding trim lookup
trim-none m id [] h = refl
trim-none m id ((k, t) ∷ d) h = ground (arith, trim-none m id d)

-- A session whose uses are all longer ago than the time to live is not known any more.
pub has-expired :
    (id : Text) (now : ℕ) (s : Sessions)
    → 0 < s.ttl_sec
    → AllOld id s.ttl_sec now s.table
    → (has_http_session id now s).0 ≡ false
unfolding has_http_session prune_table drop_expired
has-expired id now s timed old =
    let gone = keep-AllOld id s.ttl_sec now s.table old in
    ground (arith, gone, trim-none s.max_count id _ gone)
