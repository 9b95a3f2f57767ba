-- ===== src/Tests/Signup.antt =====
-- Sign-ups: a second fund of the same name.
use dolphin_vc.Auth.Termination.{free_slug-IsFree}
use dolphin_vc.Session.{request}
use dolphin_vc.Auth.Uniqueness.{signup_endpoint-UniqueNames, UniqueNames}
use dolphin_vc.Auth.Slugs.{has_slug, free_slug}
use dolphin_vc.Auth.Signup.{signup_endpoint, SignupRequest, SignupDraw}
use dolphin_vc.Auth.Model.{Org, AuthDb}
use Prim.Native.Char.{nul}
use dolphin_vc.Base.{
  length, ℕ, ◌≡◌, refl, ap, ◌∙◌, sym, String, false, none, some, [], ◌∷◌, zero, suc, any_where,
  count_where, arith,
}
use dolphin_vc.Base.Text.{char_count}
use dolphin_vc.Tests.Fixtures.{lib, draw, client, auth_db}

-- A number as that many characters.
abbrev pub unary : ℕ → String
unary zero = String.[]
unary (suc n) = String.◌∷◌ nul (unary n)

pub unary_count : (n : ℕ) → char_count (unary n) ≡ n
unfolding char_count
unary_count zero = refl
unary_count (suc n) = ap suc (unary_count n)

unary_injective : (m n : ℕ) → unary m ≡ unary n → m ≡ n
unary_injective m n h = sym (unary_count m) ∙ ap char_count h ∙ unary_count n

abbrev fund : Org
fund = record { id = 7; name = "Ann's fund"; slug = "ann-s-fund" }

free_slug-IsFree_example :
    (s : String) × (free_slug unary "ann-s-fund" (fund ∷ []) ≡ some s)
    × (any_where (has_slug s) (fund ∷ []) ≡ false)
free_slug-IsFree_example = free_slug-IsFree unary "ann-s-fund" (fund ∷ []) unary_injective

abbrev ben : SignupRequest
ben = record {
  email = "ben@fund.vc";
  password = "a long passphrase";
  full_name = "Ben";
  org_name = some "ann-s-fund";
  invite_token = none;
}

abbrev signing : SignupDraw
signing = record { token = draw 100; org_id = 8; user_id = 2; thesis_id = 3 }

abbrev with_fund : AuthDb
with_fund = record auth_db { orgs = fund ∷ [] }

with_fund-UniqueNames : UniqueNames with_fund
unfolding count_where
with_fund-UniqueNames = (λ email. ground arith, λ slug. ground arith)

signup_endpoint-UniqueNames_example :
    UniqueNames (request (signup_endpoint lib unary (λ s. s) signing ben client) with_fund).1
signup_endpoint-UniqueNames_example =
    signup_endpoint-UniqueNames lib unary (λ s. s) signing ben client with_fund
      with_fund-UniqueNames

-- The sign-up succeeds: there are two organisations.
founded :
    length (request (signup_endpoint lib unary (λ s. s) signing ben client) with_fund).1.orgs ≡ 2
unfolding signup_endpoint any_where
founded = refl
