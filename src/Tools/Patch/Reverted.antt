-- ===== src/Tools/Patch/Reverted.antt =====
-- What patching writes, and what reverting gives back.
use ida_mcp.Prelude.{
  ℕ, zero, suc, ◌+◌, ◌≤◌, ◌<◌, ◌≡◌, refl, ap, ◌∙◌, inl, inr, Bool, true, false, Option, some, [],
  ◌∷◌, length, ltb, leb, arith, if◌then◌else◌, ◌==◌, ◌&&◌, nat_eq, Bool-cases,
}
use ida_mcp.Prelude.Int.{pos}
use ida_mcp.Text.{Text}
use ida_mcp.Mcp.Body.{Bytes}
use ida_mcp.Tools.Limits.{Address, parse_addr}
use ida_mcp.Tools.Patch.{Database, without_spaces, fromhex, write, patch_at, patch_bytes, revert_at}

-- As IDA documents them: a byte that is patched reads as it was written, and the others as before.
pub record IsDatabase {D : Type 0} (db : Database D) : Type 0 where
  pub get-patch :
      (ea b x : ℕ) (d : D)
      → db.get_byte (db.patch_byte ea b d) x ≡ (if x == ea then b else db.get_byte d x)

-- What is read at `x` where bytes were laid from an address on, and `old` was there.
abbrev pub overlaid : ℕ → Bytes → ℕ → ℕ → ℕ
overlaid ea [] old x = old
overlaid ea (b ∷ bs) old x = if x == ea then b else overlaid (suc ea) bs old x

overlaid-outside :
    (bs : Bytes) (ea old x : ℕ)
    → (leb ea x && ltb x (ea + length bs)) ≡ false
    → overlaid ea bs old x ≡ old
overlaid-outside [] ea old x h = refl
overlaid-outside (b ∷ bs) ea old x h = ground (arith, overlaid-outside bs (suc ea) old x)

-- revert_patch, at so many addresses from one on.
abbrev pub revert_range : {D : Type 0} → Database D → ℕ → ℕ → D → D
revert_range db ea zero d = d
revert_range db ea (suc n) d = revert_range db (suc ea) n (revert_at db ea d).1

module _ {D : Type 0} (db : Database D) (laws : IsDatabase db) where
  write-below :
      (bs : Bytes) (ea x : ℕ) (d : D) → x < ea → db.get_byte (write db ea bs d) x ≡ db.get_byte d x
  unfolding write
  write-below [] ea x d h = refl
  write-below (b ∷ bs) ea x d h = ground (
    arith,
    write-below bs (suc ea) x (db.patch_byte ea b d) (omega arith),
    laws.get-patch ea b x d,
  )

  write-overlaid :
      (bs : Bytes) (ea x : ℕ) (d : D)
      → db.get_byte (write db ea bs d) x ≡ overlaid ea bs (db.get_byte d x) x
  unfolding write
  write-overlaid [] ea x d = refl
  write-overlaid (b ∷ bs) ea x d =
      let law = laws.get-patch ea b x d in
      elim (Bool-cases (x == ea)) [
        | inl e ↦ rw e (
            write-below bs (suc ea) x (db.patch_byte ea b d) (ground arith)
            ∙ ground (arith, law, e))
        | inr e ↦ rw e (
            write-overlaid bs (suc ea) x (db.patch_byte ea b d)
            ∙ ap (λ old. overlaid (suc ea) bs old x) (ground (arith, law, e)))
      ]

  revert_at-byte :
      (ea x : ℕ) (d : D)
      → db.is_mapped ea ≡ true
      → db.get_byte (revert_at db ea d).1 x
        ≡ (if x == ea then db.get_original_byte ea else db.get_byte d x)
  unfolding revert_at
  revert_at-byte ea x d m = rw m (laws.get-patch ea (db.get_original_byte ea) x d)

  abbrev within : ℕ → ℕ → ℕ → Bool
  within ea n x = leb ea x && ltb x (ea + n)

  revert_range-byte :
      (n ea x : ℕ) (d : D)
      → ((y : ℕ) → ea ≤ y → y < ea + n → db.is_mapped y ≡ true)
      → db.get_byte (revert_range db ea n d) x
        ≡ (if within ea n x then db.get_original_byte x else db.get_byte d x)
  revert_range-byte zero ea x d m = ground arith
  revert_range-byte (suc n) ea x d m =
      let first = revert_at-byte ea x d (m ea (omega arith) (omega arith)) in
      let rest =
        revert_range-byte n (suc ea) x (revert_at db ea d).1
          (λ y lo hi. m y (omega arith) (omega arith)) in
      ground (arith, first, rest)

  patch_bytes-writes :
      (name_ea : Text → Option ℕ) (address : Address) (data_ : Text) (ea : ℕ) (raw : Bytes) (d : D)
      → parse_addr name_ea address ≡ some (pos ea)
      → fromhex (without_spaces data_) ≡ some raw
      → (patch_bytes db name_ea address data_ d).1 ≡ write db ea raw d
  unfolding patch_bytes patch_at
  patch_bytes-writes name_ea address data_ ea raw d at_ hex = rw (at_, hex) refl

-- Patching makes the bytes from the address on those of the hex text and changes no other; reverting
-- each address of a mapped range then gives back the bytes of the file there and still no other.
pub patch_bytes-revert :
    {D : Type 0} (db : Database D) (name_ea : Text → Option ℕ) (address : Address) (data_ : Text)
    (ea : ℕ) (raw : Bytes) (d : D)
    → IsDatabase db
    → parse_addr name_ea address ≡ some (pos ea)
    → fromhex (without_spaces data_) ≡ some raw
    → ((y : ℕ) → ea ≤ y → y < ea + length raw → db.is_mapped y ≡ true)
    → (x : ℕ)
    → let d' = (patch_bytes db name_ea address data_ d).1 in
      (db.get_byte d' x ≡ overlaid ea raw (db.get_byte d x) x)
      × (db.get_byte (revert_range db ea (length raw) d') x ≡ (
          if leb ea x && ltb x (ea + length raw) then db.get_original_byte x else db.get_byte d x))
patch_bytes-revert db name_ea address data_ ea raw d laws at_ hex m x =
    let writes = patch_bytes-writes db laws name_ea address data_ ea raw d at_ hex in
    let laid = write-overlaid db laws raw ea x d in
    let back = revert_range-byte db laws (length raw) ea x (write db ea raw d) m in
    let inside = leb ea x && ltb x (ea + length raw) in
    rw writes (
      laid,
      back ∙ elim (Bool-cases inside) [
        | inl e ↦ rw e refl
        | inr e ↦ rw e (laid ∙ overlaid-outside raw ea (db.get_byte d x) x e)
      ],
    )
