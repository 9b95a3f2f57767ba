-- ===== src/RateLimit/Limiter.antt =====
-- `RateLimitMiddleware`: `rule`, and `dispatch` up to the call of the next layer. The clock counts
-- whole seconds, so that no rounding is left in `Retry-After`.
use dolphin_vc.Base.{
  ℕ, ◌+◌, ◌*◌, ◌-◌, max, String, Bool, true, false, ◌&&◌, ◌||◌, List, [], ◌∷◌, ◌++◌, leb,
  if◌then◌else◌, length, str_eq,
}
use dolphin_vc.Base.Text.{contains, ends_with}

-- The deques of the limiter, by key; `defaultdict` makes an empty one.
abbrev Buckets : Type 0
Buckets = String → List ℕ

abbrev put_bucket : String → List ℕ → Buckets → Buckets
put_bucket key bucket buckets k = if str_eq k key then bucket else buckets k

pub record Rule : Type 0 where
  pub limit : ℕ
  pub window : ℕ

abbrev per : ℕ → ℕ → Rule
per limit window = record { limit = limit; window = window }

abbrev is_write : String → Bool
is_write method =
    str_eq method "POST"
    || (str_eq method "PUT" || (str_eq method "PATCH" || str_eq method "DELETE"))

unfoldable pub rule : String → String → Rule
unfolding contains ends_with
rule path method =
    if ends_with "/healthz" path || (ends_with "/readyz" path || ends_with "/metrics" path)
    then per 600 60
    else if contains "/auth/login" path || contains "/auth/password/" path
    then per 10 900
    else if contains "/public/apply" path && str_eq method "POST"
    then per 5 3600
    else if contains "/search/" path
    then per 60 60
    else if is_write method
    then per 60 60
    else per 300 60

-- Outside production the limit is ten times as high.
abbrev lenient : String → Bool
lenient env = str_eq env "dev" || (str_eq env "test" || str_eq env "demo")

abbrev effective : String → Rule → Rule
effective env r = if lenient env then record r { limit = r.limit * 10 } else r

-- `while bucket and bucket[0] <= now - window: bucket.popleft()`
unfoldable pub evict : ℕ → ℕ → List ℕ → List ℕ
evict window now [] = []
evict window now (t ∷ bucket) =
    let rest = evict window now bucket in if leb (t + window) now then rest else t ∷ bucket

-- How a request ends in the limiter: refused with `Retry-After`, or passed on with what remains.
pub data Verdict : Type 0 where
  refused : ℕ → Verdict
  admitted : ℕ → Verdict

abbrev pub is_admitted : Verdict → Bool
is_admitted (refused _) = false
is_admitted (admitted _) = true

abbrev oldest : List ℕ → ℕ → ℕ
oldest [] now = now
oldest (t ∷ bucket) now = t

abbrev full_or_not : Rule → ℕ → List ℕ → Verdict × List ℕ
full_or_not r now bucket =
    if leb r.limit (length bucket)
    then (refused (max 1 (oldest bucket now + r.window - now)), bucket)
    else (admitted (r.limit - length (bucket ++ now ∷ [])), bucket ++ now ∷ [])

-- One request on its own bucket.
unfoldable pub hit : Rule → ℕ → List ℕ → Verdict × List ℕ
hit r now bucket = full_or_not r now (evict r.window now bucket)

pub record WebRequest : Type 0 where
  pub key : String
  pub path : String
  pub method : String

unfoldable dispatch : String → WebRequest → ℕ → Buckets → Verdict × Buckets
unfolding hit
dispatch env q now buckets =
    let (verdict, bucket) = hit (effective env (rule q.path q.method)) now (buckets q.key) in
    (verdict, put_bucket q.key bucket buckets)
