-- ===== src/Tools/Signature/Unique.antt =====
-- A signature that is made has one match, and making one ends.
use ida_mcp.Prelude.{
  ℕ, zero, suc, ◌+◌, ◌≤◌, ◌<◌, ◌≡◌, ◌≢◌, refl, inl, inr, Bool, true, false, ◌&&◌, Option, none,
  some, [], ◌∷◌, ◌++◌, ◌%◌, max, leb, ltb, arith, length, length-append, ◌==◌, nat_eq, Bool-cases,
  Option-cases,
}
use ida_mcp.Text.{Text}
use ida_mcp.Tools.Signature.{
  Signature, Insn, insn_sig_bytes, of_decoded, to_ida_pattern, Search, find_nth, find_from, only_at,
  is_none, is_unique, Made, made, out_of_fuel, conclude, interrupted, make_from, make_unique,
}
use ida_mcp.Tools.Signature.Bytes.{insn_sig-Covers}

-- What find_bytes documents, for the addresses where a pattern stands before the end: the first one
-- at or after the start, and none where there is none.
pub record IsSearch (Match : Text → ℕ → Type 0) (find : Search) : Type 0 where
  pub finds : (p : Text) (ea found : ℕ) → find p ea ≡ some found → Match p found × (ea ≤ found)
  pub first : (p : Text) (ea found a : ℕ) → find p ea ≡ some found → ea ≤ a → Match p a → found ≤ a
  pub misses : (p : Text) (ea a : ℕ) → find p ea ≡ none → ea ≤ a → ¬ Match p a

-- The pattern stands at `ea`, and at no other address of the database.
abbrev pub IsOnlyMatch : (Text → ℕ → Type 0) → ℕ → Text → ℕ → Type 0
IsOnlyMatch Match min_ea p ea = Match p ea × ((a : ℕ) → min_ea ≤ a → Match p a → a ≡ ea)

max_self : (n : ℕ) → max n n ≡ n
max_self n = omega arith

max-le : (m n : ℕ) → m ≤ n → max n m ≡ n
max-le m n h = omega arith

is_unique_sound :
    (Match : Text → ℕ → Type 0) (find : Search) (min_ea : ℕ)
    → IsSearch Match find
    → (p : Text) (ea : ℕ) → is_unique find min_ea p ea ≡ true
    → IsOnlyMatch Match min_ea p ea
unfolding is_unique only_at find_nth find_from
is_unique_sound Match find min_ea s p ea h = at_first (find p (max min_ea min_ea)) refl h
  where
    unmatched :
        (found : ℕ)
        → Match p found
        → ((a : ℕ) → min_ea ≤ a → Match p a → found ≤ a)
        → (o : Option ℕ) → find p (max (suc found) min_ea) ≡ o
        → found == ea && is_none o ≡ true
        → min_ea ≤ found
        → IsOnlyMatch Match min_ea p ea
    unmatched found m least (some b) f k le = absurd (ground (arith, k))
    unmatched found m least none f k le =
        let same : found ≡ ea = ground (arith, k) in
        (
          rw same at m,
          λ a from_min match. elim (Bool-cases (ltb found a)) [
            | inl over ↦ absurd (s.misses p (max (suc found) min_ea) a f (ground arith) match)
            | inr under ↦ ground (arith, least a from_min match)
          ],
        )

    at_first :
        (o : Option ℕ)
        → find p (max min_ea min_ea) ≡ o
        → only_at find min_ea p ea o ≡ true
        → IsOnlyMatch Match min_ea p ea
    at_first none e k = absurd (cc k)
    at_first (some found) e k =
        unmatched found (s.finds p _ found e).0
          (λ a le match. s.first p (max min_ea min_ea) found a e (omega (arith, le)) match)
          (find p (max (suc found) min_ea)) refl k (omega (arith, (s.finds p _ found e).1))

module _ (insn : ℕ → Option Signature) (unique : Signature → Bool) (cancelled : ℕ → Bool)
    (max_length : ℕ) where
  -- The rounds of the loop, for a property of what it returns.
  rounds {ℓ} :
      (P : Made → Type ℓ) (fuel steps : ℕ) (sig : Signature) (ea : ℕ)
      → P (conclude insn unique cancelled max_length sig ea)
      → P (interrupted insn unique cancelled max_length sig ea)
      → ((part : Signature)
          → length sig < max_length
          → insn ea ≡ some part
          → unique (sig ++ part) ≡ true
          → P (made (sig ++ part) (ea + length part)))
      → ((part : Signature)
          → length sig < max_length
          → insn ea ≡ some part
          → unique (sig ++ part) ≡ false
          → P (
              make_from insn unique cancelled max_length fuel
                (suc steps)
                (sig ++ part)
                (ea + length part)))
      → P (make_from insn unique cancelled max_length (suc fuel) steps sig ea)
  unfolding make_from
  rounds P fuel steps sig ea at_end at_cancel at_made at_more =
      elim (Bool-cases (leb max_length (length sig))) [
        | inl e ↦ rw (e, make_from) at_end
        | inr e ↦ elim (Bool-cases (suc steps % 8 == 0 && cancelled (suc steps))) [
          | inl f ↦ rw (e, f, make_from) at_cancel
          | inr f ↦ elim (Option-cases (insn ea)) [
            | inl g ↦ rw (e, f, g, make_from) at_end
            | inr (part, g) ↦ elim (Bool-cases (unique (sig ++ part))) [
              | inl u ↦ rw (e, f, g, u, make_from) (at_made part (ground (arith, e)) g u)
              | inr u ↦ rw (e, f, g, u, make_from) (at_more part (ground (arith, e)) g u)
            ]
          ]
        ]
      ]

  -- A signature that is made is unique and ends where its bytes do.
  abbrev IsGood : ℕ → Made → Type 0
  IsGood start (made sig end_ea) = (unique sig ≡ true) × (end_ea ≡ start + length sig)
  IsGood start _ = Unit

  conclude-IsGood :
      (start : ℕ) (sig : Signature) (ea : ℕ)
      → ea ≡ start + length sig
      → IsGood start (conclude insn unique cancelled max_length sig ea)
  unfolding conclude
  conclude-IsGood start [] ea h = tt
  conclude-IsGood start (b ∷ bs) ea h = elim (Bool-cases (unique (b ∷ bs))) [
    | inl u ↦ rw u (u, h)
    | inr u ↦ rw u tt
  ]

  interrupted-IsGood :
      (start : ℕ) (sig : Signature) (ea : ℕ)
      → IsGood start (interrupted insn unique cancelled max_length sig ea)
  unfolding interrupted
  interrupted-IsGood start [] ea = tt
  interrupted-IsGood start (b ∷ bs) ea = tt

  make-IsGood :
      (start fuel steps : ℕ) (sig : Signature) (ea : ℕ)
      → ea ≡ start + length sig
      → IsGood start (make_from insn unique cancelled max_length fuel steps sig ea)
  unfolding make_from
  make-IsGood start zero steps sig ea h = tt
  make-IsGood start (suc fuel) steps sig ea h =
      rounds (IsGood start) fuel steps sig ea (conclude-IsGood start sig ea h)
        (interrupted-IsGood start sig ea)
        (λ part _ _ u. (u, omega (arith, h, length-append sig part)))
        (λ part _ _ _.
          make-IsGood start fuel (suc steps) (sig ++ part) (ea + length part)
            (omega (arith, h, length-append sig part)))

  abbrev IsSpent : Made → Type 0
  IsSpent out_of_fuel = Unit
  IsSpent _ = ⊥

  conclude-ends :
      (sig : Signature) (ea : ℕ) → ¬ IsSpent (conclude insn unique cancelled max_length sig ea)
  unfolding conclude
  conclude-ends [] ea h = h
  conclude-ends (b ∷ bs) ea h = elim (Bool-cases (unique (b ∷ bs))) [
    | inl u ↦ rw u at h
    | inr u ↦ rw u at h
  ]

  interrupted-ends :
      (sig : Signature) (ea : ℕ) → ¬ IsSpent (interrupted insn unique cancelled max_length sig ea)
  unfolding interrupted
  interrupted-ends [] ea h = h
  interrupted-ends (b ∷ bs) ea h = h

  make-ends :
      ((ea : ℕ) (part : Signature) → insn ea ≡ some part → 0 < length part)
      → (fuel steps : ℕ) (sig : Signature) (ea : ℕ) → max_length < length sig + fuel
      → 0 < fuel
      → ¬ IsSpent (make_from insn unique cancelled max_length fuel steps sig ea)
  unfolding make_from
  make-ends moves zero steps sig ea h k = absurd (omega (arith, k))
  make-ends moves (suc fuel) steps sig ea h k =
      rounds (λ m. ¬ IsSpent m) fuel steps sig ea (conclude-ends sig ea) (interrupted-ends sig ea)
        (λ _ _ _ _ x. x)
        (λ part short g _.
          make-ends moves fuel (suc steps) (sig ++ part) (ea + length part)
            (omega (arith, h, moves ea part g, length-append sig part)) (omega (arith, h, short)))

module _ (decode : ℕ → Option Insn) (find : Search) (min_ea : ℕ) (cancelled : ℕ → Bool)
    (start_ea max_length : ℕ) (wildcard_operands : Bool) where
  -- Making a signature ends: the loop never runs out of the fuel it is given, whatever IDA decodes.
  pub make_unique-ends :
      make_unique decode find min_ea cancelled start_ea max_length wildcard_operands ≢ out_of_fuel
  unfolding make_unique insn_sig_bytes
  make_unique-ends h =
      make-ends (insn_sig_bytes decode wildcard_operands)
        (λ sig. is_unique find min_ea (to_ida_pattern sig) start_ea) cancelled max_length moves
        (suc max_length) 0 [] start_ea (omega arith) (omega arith) (rw h tt)
    where
      moves :
          (ea : ℕ) (part : Signature)
          → insn_sig_bytes decode wildcard_operands ea ≡ some part
          → 0 < length part
      moves ea part g = elim (Option-cases (decode ea)) [
        | inl e ↦ absurd (cc (simp (e, insn_sig_bytes, of_decoded) at g))
        | inr (insn, e) ↦
            let facts = insn_sig-Covers decode wildcard_operands ea insn part e g in
            omega (arith, facts.0, facts.1)
      ]

  -- A signature that is reported as unique stands at the start address and, where find_bytes is as
  -- documented, nowhere else in the database; and the end that is reported is where its bytes end.
  pub make_unique-IsOnlyMatch :
      (Match : Text → ℕ → Type 0)
      → IsSearch Match find
      → (sig : Signature) (end_ea : ℕ)
      → make_unique decode find min_ea cancelled start_ea max_length wildcard_operands
        ≡ made sig end_ea
      → IsOnlyMatch Match min_ea (to_ida_pattern sig) start_ea × (end_ea ≡ start_ea + length sig)
  unfolding make_unique
  make_unique-IsOnlyMatch Match s sig end_ea h =
      let unique = λ (t : Signature). is_unique find min_ea (to_ida_pattern t) start_ea in
      let good =
        make-IsGood (insn_sig_bytes decode wildcard_operands) unique cancelled max_length start_ea
          (suc max_length) 0 [] start_ea (omega arith) in
      let found : (is_unique find min_ea (to_ida_pattern sig) start_ea ≡ true)
          × (end_ea ≡ start_ea + length sig) =
        rw h at good in
      (is_unique_sound Match find min_ea s (to_ida_pattern sig) start_ea found.0, found.1)
