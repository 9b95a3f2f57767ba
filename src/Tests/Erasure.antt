-- ===== src/Tests/Erasure.antt =====
-- A founder who is erased, and another of the same GitHub account.
use text.Mathlib.TextEquality.{eq_iff}
use dolphin_vc.Base.{
  ◌≡◌, ◌≢◌, refl, inl, some, [], ◌∷◌, String, ℕ, arith, find_where, update_where, select_where,
}
use dolphin_vc.Errors.{ok}
use dolphin_vc.Session.{request}
use dolphin_vc.Records.{Db, Person, empty_db}
use dolphin_vc.Sourcing.People.{new_person, person_by_identity}
use dolphin_vc.Sourcing.Erasure.{gdpr_erase}
use dolphin_vc.Sourcing.Unknown.{erased_is_unknown}
use dolphin_vc.Tests.Sourcing.{kit}

abbrev show : ℕ → String
show n = "5"

abbrev eve : Person
eve = record (new_person 5 10 "Eve" "eve") {
  emails = "eve@acme.dev" ∷ [];
  identities = ("github", "eve") ∷ [];
}

abbrev namesake : Person
namesake = record eve { id = 6; created_at = 20; emails = [] }

abbrev known_db : Db
known_db = record empty_db { persons = eve ∷ namesake ∷ [] }

-- The older of the two is known by the account.
eve_is_known : person_by_identity kit "github" "eve" known_db ≡ some eve
unfolding person_by_identity find_where select_where
eve_is_known = refl

abbrev erased_db : Db
erased_db = (request (gdpr_erase show 5) known_db).1

eve_is_erased : request (gdpr_erase show 5) known_db ≡ (ok tt, erased_db)
unfolding gdpr_erase find_where
eve_is_erased = refl

namesake_is_known : person_by_identity kit "github" "eve" erased_db ≡ some namesake
unfolding person_by_identity gdpr_erase find_where update_where select_where
namesake_is_known = refl

erased_is_unknown_example : namesake.id ≢ 5
erased_is_unknown_example =
    erased_is_unknown kit show 5 known_db erased_db eve_is_erased "github" "eve" "eve@acme.dev" refl
      (λ e. ground (arith, (eq_iff "eve" "erased-5").1 e)) namesake (inl namesake_is_known)
