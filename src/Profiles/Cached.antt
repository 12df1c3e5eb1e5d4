-- ===== src/Profiles/Cached.antt =====
-- When the profiles are read.
use ida_mcp.Prelude.{◌≡◌, refl, Bool-cases, inl, inr}
use ida_mcp.Text.{Text}
use ida_mcp.Profiles.{Files, Cache, list_profiles, reload_profiles, get_profile}

-- The profiles are read once: whatever the files become after the first look, later looks answer as
-- it did, until a reload.
pub get_profile-once :
    (before after : Files) (name other_name : Text) (c : Cache)
    → (get_profile after name (get_profile before other_name c).1).0 ≡ (get_profile before name c).0
unfolding get_profile list_profiles reload_profiles
get_profile-once before after name other_name c = elim (Bool-cases c.is_complete) [
  | inl e ↦ simp e refl
  | inr e ↦ simp e refl
]
