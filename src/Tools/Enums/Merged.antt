-- ===== src/Tools/Enums/Merged.antt =====
-- What an upsert of an enum leaves in it.
use ida_mcp.Prelude.{
  ◌≡◌, refl, sym, ap, ◌∙◌, Bool, true, not, Option, none, some, inl, inr, List, [], ◌∷◌, ◌++◌, map,
  append_assoc, append_nil, if◌then◌else◌, ◌==◌, text_eq, Bool-cases,
}
use ida_mcp.Prelude.Int.{ℤ}
use ida_mcp.Prelude.Dict.{Dict, lookup, insert, lookup-insert}
use ida_mcp.Text.{Text, lit}
use ida_mcp.Json.{Value, int, str, arr, obj, Items, nil, cons, end, field, get}
use ida_mcp.Exec.{Result, ok}
use ida_mcp.Tools.Enums.{
  Til, Reply, upserted, updates, int_of, read_members, overlay, seed, stored, store, enum_upsert,
}

-- The members as a client sends them.
abbrev pub sent : List (Text × ℤ) → Items
sent [] = nil
sent ((n, v) ∷ us) =
    cons (obj (field (lit "name") (str n) (field (lit "value") (int v) end))) (sent us)

abbrev pub names : List (Text × ℤ) → List Text
names d = map (λ m. m.0) d

-- The last value that is given for a name, or the one it has.
abbrev pub latest : Text → List (Text × ℤ) → Option ℤ → Option ℤ
latest j [] known = known
latest j ((n, v) ∷ us) known = latest j us (if j == n then some v else known)

read_members-sent :
    (to_str : Value → Text)
    → ((t : Text) → to_str (str t) ≡ t)
    → (us : List (Text × ℤ)) → read_members to_str (sent us) ≡ updates us
unfolding read_members get int_of text_eq lit
read_members-sent to_str law [] = refl
read_members-sent to_str law ((n, v) ∷ us) = simp (law n, read_members-sent to_str law us)

lookup-overlay :
    (j : Text) (us : List (Text × ℤ)) (d : Dict Text ℤ)
    → lookup j (overlay us d) ≡ latest j us (lookup j d)
unfolding overlay
lookup-overlay j [] d = refl
lookup-overlay j ((n, v) ∷ us) d =
    lookup-overlay j us (insert n v d) ∙ ap (latest j us) (lookup-insert j n v d)

-- Setting a key keeps the names in front.
names-insert :
    (n : Text) (v : ℤ) (d : Dict Text ℤ)
    → (added : List Text) × (names (insert n v d) ≡ names d ++ added)
unfolding insert
names-insert n v [] = (n ∷ [], refl)
names-insert n v ((j, w) ∷ d) = elim (Bool-cases (n == j)) [
  | inl e ↦ rw e ([], ap (λ js. j ∷ js) (sym (append_nil (names d))))
  | inr e ↦ let (added, p) = names-insert n v d in rw e (added, ap (λ js. j ∷ js) p)
]

names-overlay :
    (us : List (Text × ℤ)) (d : Dict Text ℤ)
    → (added : List Text) × (names (overlay us d) ≡ names d ++ added)
unfolding overlay
names-overlay [] d = ([], sym (append_nil (names d)))
names-overlay ((n, v) ∷ us) d =
    let (first, p) = names-insert n v d in
    let (more, q) = names-overlay us (insert n v d) in
    (first ++ more, q ∙ ap (λ js. js ++ more) p ∙ append_assoc (names d) first more)

module _ {T : Type 0} (til : Til T) where
  -- The library takes the enum.
  pub record IsTaken (name : Text) (t : T) : Type 0 where
    pub built : (d : List (Text × ℤ)) → til.create_enum d ≡ true
    pub set :
        (d : List (Text × ℤ)) (replace : Bool) → (til.set_named_type name d replace t).0 ≡ none

  -- The answer is that the enum is stored with these members, and the library was given them.
  pub record IsMerged (name : Text) (t : T) (created : Bool) (old us : List (Text × ℤ))
      (reply : Result Reply × T) : Type 0 where
    pub members : List (Text × ℤ)
    pub replied :
        reply ≡ (ok (upserted created members), (til.set_named_type name members (not created) t).1)
    pub values : (j : Text) → lookup j members ≡ latest j us (lookup j old)
    pub added : List Text
    pub in_front : names members ≡ names old ++ added

  stored-taken :
      (name : Text) (created : Bool) (d : List (Text × ℤ)) (r : Option Text × T)
      → r.0 ≡ none
      → stored til name created d r ≡ (ok (upserted created d), r.1)
  stored-taken name created d (none, t) h = refl
  stored-taken name created d (some e, t) h = absurd (cc h)

  stores :
      (name : Text) (created : Bool) (d : Dict Text ℤ) (t : T)
      → IsTaken name t
      → store til name created d t
        ≡ (ok (upserted created d), (til.set_named_type name d (not created) t).1)
  unfolding store
  stores name created d t h = rw (h.built d) (
      stored-taken name created d (til.set_named_type name d (not created) t)
        (h.set d (not created)))

  -- Where no other type has the name and the type library takes the enum, an upsert of any members
  -- answers with an enum in which each name has the last value given for it, or else the one it had, and
  -- the names it had come first and in their order; exactly these members are stored, as a replacement
  -- unless the enum is new.
  pub enum_upsert-IsMerged :
      (to_str : Value → Text) (name : Text) (us : List (Text × ℤ)) (t : T) (created : Bool)
      (old : Dict Text ℤ)
      → ((s : Text) → to_str (str s) ≡ s)
      → seed (til.named name t) ≡ some (created, old)
      → IsTaken name t
      → IsMerged name t created old us (enum_upsert til name to_str (inl (arr (sent us))) t)
  unfolding enum_upsert
  enum_upsert-IsMerged to_str name us t created old law found taken =
      let (added, p) = names-overlay us old in
      record {
        members = overlay us old;
        replied =
            rw (read_members-sent to_str law us, found)
              (stores name created (overlay us old) t taken);
        values = λ j. lookup-overlay j us old;
        added = added;
        in_front = p;
      }
