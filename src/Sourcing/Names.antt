-- ===== src/Sourcing/Names.antt =====
-- The names that `_clean_name`, `_company_name_from_signal` and `_company_domain` of
-- backend/app/services/ingestion.py read off a signal. Case folding, Unicode normalisation, hashes
-- and the host of a URL are parameters.
use dolphin_vc.Base.{
  ℕ, zero, suc, String, Bool, true, false, not, ◌&&◌, ◌||◌, Option, none, some, List, [], ◌∷◌,
  if◌then◌else◌, str_eq, ◌==◌, any_where,
}
use Prim.Native.Char.{code}
use dolphin_vc.Base.Text.{split, join, first_chars, char_count, is_prefix, strip}
use dolphin_vc.Types.{SignalKind}
use dolphin_vc.Records.{Signal, FounderScoreEvent}

-- What `compute_founder_score` gives.
pub record FounderScoreResult : Type 0 where
  pub score : ℕ
  pub ci_low : ℕ
  pub ci_high : ℕ
  pub confidence : ℕ
  pub cold_start : Bool

-- The functions that are not modelled; `compute` takes the instant and the events in their order, and
-- `day` gives the date of an instant.
pub record Tools : Type 0 where
  pub casefold : String → String
  pub normalize_name : String → String
  pub hostname : String → Option String
  pub stable_hash : ℕ → String → String
  pub title_case : String → String
  pub round : ℕ → ℕ → ℕ
  pub compute : ℕ → List FounderScoreEvent → FounderScoreResult
  pub day : ℕ → ℕ

-- `value or default`
abbrev pub text_or : Option String → String → String
text_or none fallback = fallback
text_or (some s) fallback = if str_eq s "" then fallback else s

-- `_clean_name`
unfoldable pub clean_name : Option String → String → String
unfolding split join first_chars
clean_name value fallback =
    let cleaned = strip (join " " (split (text_or value ""))) in
    if str_eq cleaned "" then first_chars 200 fallback else first_chars 200 cleaned

-- `text[n:]`
unfoldable drop_chars : ℕ → String → String
drop_chars zero s = s
drop_chars (suc n) String.[] = ""
drop_chars (suc n) (String.◌∷◌ c s) = drop_chars n s

-- `text.rsplit("/", 1)[-1]`: what stands behind the last slash, and whether there is one
last_segment_from : String → String × Bool
last_segment_from String.[] = ("", Bool.false)
last_segment_from (String.◌∷◌ c s) =
    let (segment, cut) = last_segment_from s in
    if cut
    then (segment, cut)
    else if code c == b'/'
    then (segment, Bool.true)
    else (String.◌∷◌ c segment, cut)

unfoldable last_segment : String → String
unfolding last_segment_from
last_segment s = (last_segment_from s).0

abbrev is_repo_activity : SignalKind → Bool
is_repo_activity SignalKind.repo_activity = true
is_repo_activity _ = false

module _ (tools : Tools) where
  -- One round of the loop over the prefixes.
  abbrev without_prefix : String → String → String
  without_prefix prefix title =
      if is_prefix (tools.casefold prefix) (tools.casefold title)
      then strip (drop_chars (char_count prefix) title)
      else title

  abbrev host_of : Option String → Option String
  host_of url = tools.hostname (text_or url "")

  -- What a company is called without a name in the payload.
  abbrev titled : Signal → String
  titled signal =
      let title = clean_name signal.title "" in
      if str_eq title ""
      then clean_name (host_of signal.url) "Discovered company"
      else without_prefix "Launch HN:" (without_prefix "Show HN:" title)

  abbrev untold_name : Signal → String
  untold_name signal =
      if is_repo_activity signal.kind && not (str_eq (text_or signal.title "") "")
      then clean_name (some (last_segment (text_or signal.title ""))) "Discovered repository"
      else titled signal

  -- `_company_name_from_signal`
  unfoldable pub company_name_from_signal : Signal → String
  unfolding clean_name drop_chars last_segment strip char_count is_prefix
  company_name_from_signal signal =
      if str_eq (strip (text_or signal.company_name "")) ""
      then untold_name signal
      else clean_name signal.company_name "Discovered company"

  abbrev shared_hosts : List String
  shared_hosts = "github.com" ∷ "arxiv.org" ∷ "news.ycombinator.com" ∷ []

  abbrev own_host : String → Option String
  own_host host = if str_eq host "" || any_where (str_eq host) shared_hosts then none else some host

  -- `_company_domain`
  unfoldable pub company_domain : Signal → Option String
  unfolding any_where
  company_domain signal = own_host (tools.casefold (text_or (host_of signal.url) ""))
