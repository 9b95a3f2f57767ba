-- ===== src/Tests/Listing.antt =====
-- Two opportunities, listed one to a page.
use dolphin_vc.Errors.{ok}
use dolphin_vc.Opportunities.Complete.{list_opportunities-walk, whole}
use dolphin_vc.Records.{empty_db, Opportunity, Db}
use dolphin_vc.Opportunities.Paging.{walk}
use dolphin_vc.Opportunities.Listing.{is_falsy, selects, list_opportunities, newest_first, Filter}
use Prim.Native.Char.{nul, code}
use dolphin_vc.Tests.Signup.{unary, unary_count}
use dolphin_vc.Base.{
  select_where, Bool, ap, if◌then◌else◌, ℕ, ◌+◌, ◌≡◌, refl, String, false, true, none, some, Option,
  [], ◌∷◌, length, zero, suc, ◌==◌,
}
use dolphin_vc.Base.Text.{char_count}
use dolphin_vc.Tests.Screening.{deal, acme}

abbrev db : Db
db = record empty_db {
  companies = acme ∷ [];
  opportunities = deal ∷ record deal { id = 12; updated_at = 20 } ∷ [];
}

abbrev everything : Filter
everything = record { stage = none; origin = none; q = none; sla_risk = false }

abbrev zero_key : ℕ → Option (ℕ × ℕ)
zero_key n = some (0, n)

-- A key as a text: the two numbers in turn, with a letter between.
abbrev encode_from : ℕ → ℕ → String
encode_from zero id = String.◌∷◌ "a" (unary id)
encode_from (suc timestamp) id = String.◌∷◌ nul (encode_from timestamp id)

abbrev encode : ℕ × ℕ → String
encode (timestamp, id) = encode_from timestamp id

abbrev later : Option (ℕ × ℕ) → Option (ℕ × ℕ)
later none = none
later (some (timestamp, id)) = some (suc timestamp, id)

abbrev decode : String → Option (ℕ × ℕ)
decode String.[] = none
decode (String.◌∷◌ c s) =
    let rest = decode s in if code c == 0 then later rest else some (0, char_count s)

decode-encode_from : (t i : ℕ) → decode (encode_from t i) ≡ some (t, i)
decode-encode_from zero i = ap (λ (n : ℕ). zero_key n) (unary_count i)
decode-encode_from (suc t) i = ap later (decode-encode_from t i)

decode-encode : (k : ℕ × ℕ) → decode (encode k) ≡ some k
decode-encode (t, i) = decode-encode_from t i

encode_from-text : (t i : ℕ) → is_falsy (encode_from t i) ≡ false
encode_from-text zero i = refl
encode_from-text (suc t) i = refl

encode-text : (k : ℕ × ℕ) → is_falsy (encode k) ≡ false
encode-text (t, i) = encode_from-text t i

abbrev any_text : Option String → Opportunity → Bool
any_text q o = true

list_opportunities-walk_example :
    walk
      (length (whole encode decode any_text 7 everything 15 db) + 1)
      none
      (λ cursor. list_opportunities encode decode any_text 7 everything 15 cursor 1 db)
    ≡ ok (whole encode decode any_text 7 everything 15 db)
list_opportunities-walk_example =
    list_opportunities-walk encode decode any_text 7 everything 15 db 0 decode-encode encode-text
      ((refl, tt), (tt, tt))

-- There are two pages to walk.
two_rows : length (whole encode decode any_text 7 everything 15 db) ≡ 2
unfolding newest_first select_where selects
two_rows = refl
