-- ===== src/Auth/Slugs.antt =====
-- The slug of a new organisation: the loop of `signup` in backend/app/services/auth.py. `slugify`
-- and the text of a number are parameters.
use Prim.Native.String.{◌++◌ as append}
use dolphin_vc.Base.{
  Bool, ℕ, ◌+◌, String, Option, none, some, List, zero, suc, if◌then◌else◌, any_where, str_eq,
  length,
}
use dolphin_vc.Base.Text.{first_chars}
use dolphin_vc.Auth.Model.{Org}

abbrev pub has_slug : String → Org → Bool
has_slug slug o = str_eq o.slug slug

module _ (show : ℕ → String) (base : String) where
  -- `f"{base_slug[:70]}-{suffix}"`
  unfoldable pub numbered : ℕ → String
  unfolding first_chars
  numbered n = append (first_chars 70 base) (append "-" (show n))

  -- The loop, on fuel, at the slug it has come to; the slugs behind it have the suffixes above `n`.
  unfoldable pub next_slug : ℕ → ℕ → String → List Org → Option String
  unfolding numbered
  next_slug zero n slug orgs = none
  next_slug (suc fuel) n slug orgs =
      let rest = next_slug fuel (n + 1) (numbered (n + 1)) orgs in
      if any_where (has_slug slug) orgs then rest else some slug

  -- The slug that the loop ends in: it looks at two slugs more than there are organisations, at most.
  unfoldable pub free_slug : List Org → Option String
  unfolding next_slug
  free_slug orgs = next_slug (length orgs + 2) 1 base orgs
