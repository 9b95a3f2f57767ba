-- ===== src/Tests/RateLimit.antt =====
-- The limiter at work.
use dolphin_vc.Base.{◌≤◌, ◌≡◌, ◌↔◌, false, [], ◌∷◌, arith}
use dolphin_vc.RateLimit.Limiter.{Rule, is_admitted, hit}
use dolphin_vc.RateLimit.Window.{recent_count}
use dolphin_vc.RateLimit.Admission.{InOrder, after_hits, window_bound, refused_iff_full}

-- The rule of `/public/apply`, with a smaller limit.
abbrev two_an_hour : Rule
two_an_hour = record { limit = 2; window = 3600 }

in_order : InOrder 0 (10 ∷ 20 ∷ 30 ∷ 3620 ∷ [])
in_order = ground arith

window_bound_example :
    recent_count 3600 3625 (after_hits two_an_hour (10 ∷ 20 ∷ 30 ∷ 3620 ∷ []) ([], [])).1 ≤ 2
window_bound_example =
    window_bound two_an_hour (10 ∷ 20 ∷ 30 ∷ 3620 ∷ []) in_order 3625 (omega arith)

refused_iff_full_example :
    let (bucket, log) = after_hits two_an_hour (10 ∷ 20 ∷ 30 ∷ 3620 ∷ []) ([], []) in
    is_admitted (hit two_an_hour 3625 bucket).0 ≡ false ↔ 2 ≤ recent_count 3600 3625 log
refused_iff_full_example =
    refused_iff_full two_an_hour (10 ∷ 20 ∷ 30 ∷ 3620 ∷ []) in_order 3625 (omega arith)
