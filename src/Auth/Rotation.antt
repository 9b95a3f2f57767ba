-- ===== src/Auth/Rotation.antt =====
-- Rotation of refresh tokens (`rotate_refresh_token` of backend/app/services/auth.py): the live
-- tokens of a family, and tokens that come back.
use dolphin_vc.Base.{
  ℕ, ◌≤◌, ◌≡◌, ◌≢◌, refl, inl, inr, String, Bool, true, false, Option, some, [], ◌∷◌, ◌++◌, arith,
  ◌==◌, bit, change, find_where, update_where, count_where, Option-cases, find_where-append,
  find_where-update_where, count_where-insert, count_where-update_where-le,
  count_where-update_where-eq, count_where-update_where-lt, count_where-update_where_none,
}
use dolphin_vc.Errors.{ok, err}
use dolphin_vc.Session.{request}
use dolphin_vc.Auth.Model.{User, RefreshToken, AuthDb, Library, Draw, IssuedTokens, Client}
use dolphin_vc.Auth.Tokens.{
  revoke, is_live, reuse_error, has_hash, live_in_family, find_user, new_refresh, refresh_with,
}

-- The number of live tokens of a family.
abbrev pub live_count : ℕ → AuthDb → ℕ
live_count f db = count_where (live_in_family f) db.refresh_tokens

-- No family has two live tokens.
pub record IsSingle (db : AuthDb) : Type 0 where
  pub at_family : (f : ℕ) → live_count f db ≤ 1

module _ (q : RefreshToken → Bool) (now : ℕ) (reason : String) where
  -- Revocation keeps hash and family, and makes no token live.
  has_hash-revoke :
      (h : String) (t : RefreshToken) → has_hash h (change q (revoke now reason) t) ≡ has_hash h t
  has_hash-revoke h t = ground arith

  live-revoke-le :
      (f : ℕ) (t : RefreshToken)
      → bit (live_in_family f (change q (revoke now reason) t)) ≤ bit (live_in_family f t)
  live-revoke-le f t = ground arith

live-revoke_family :
    (f now : ℕ) (reason : String) (t : RefreshToken)
    → live_in_family f (change (live_in_family f) (revoke now reason) t) ≡ false
live-revoke_family f now reason t = ground arith

live-revoke_other :
    (f family now : ℕ) (reason : String)
    → f ≢ family
    → (t : RefreshToken)
    → live_in_family f (change (live_in_family family) (revoke now reason) t) ≡ live_in_family f t
live-revoke_other f family now reason other t = ground arith

-- The row that the presented token names.
abbrev pub presented : Library → String → AuthDb → Option RefreshToken
presented lib raw db = find_where (has_hash (lib.hash_token raw)) db.refresh_tokens

module _ (lib : Library) (raw : String) (draw : Draw) (client : Client) (db : AuthDb) where
  -- A rotation takes the presented token out of its family and puts the new one in.
  rotated_count :
      (f : ℕ) (row : RefreshToken) (u : User)
      → presented lib raw db ≡ some row
      → is_live row ≡ true
      → let new = new_refresh lib u draw (some row.family_id) (some row.id) client in
        count_where (live_in_family f) (
          update_where (λ t. t.id == row.id) (revoke draw.now "rotated") db.refresh_tokens
          ++ new ∷ [])
        ≤ count_where (live_in_family f) db.refresh_tokens
  rotated_count f row u found live =
      let le = live-revoke-le (λ t. t.id == row.id) draw.now "rotated" f in
      ground (
        arith,
        count_where-update_where-le (live_in_family f) (λ t. t.id == row.id)
            (revoke draw.now "rotated") db.refresh_tokens le,
        count_where-update_where-lt (live_in_family f) (λ t. t.id == row.id)
            (has_hash (lib.hash_token raw)) (revoke draw.now "rotated") db.refresh_tokens row le
            found,
        count_where-insert (live_in_family f)
            (update_where (λ t. t.id == row.id) (revoke draw.now "rotated") db.refresh_tokens)
            (new_refresh lib u draw (some row.family_id) (some row.id) client),
      )

  -- Whatever the outcome of a refresh, a family has no more live tokens afterwards than before.
  refresh_with-live_count-le :
      (f : ℕ) → live_count f (request (refresh_with lib raw draw client) db).1 ≤ live_count f db
  unfolding refresh_with
  refresh_with-live_count-le f = elim (Option-cases (presented lib raw db)) [
    | inl missing ↦ ground arith
    | inr (row, found) ↦ elim (Option-cases (find_user row.user_id db)) [
      | inl no_user ↦ ground (
        arith,
        count_where-update_where-le (live_in_family f) (live_in_family row.family_id)
            (revoke draw.now "reuse_detected") db.refresh_tokens
            (live-revoke-le (live_in_family row.family_id) draw.now "reuse_detected" f),
      )
      | inr (u, user) ↦ ground (
        arith,
        rotated_count f row u found,
        count_where-update_where-le (live_in_family f) (live_in_family row.family_id)
            (revoke draw.now "reuse_detected") db.refresh_tokens
            (live-revoke-le (live_in_family row.family_id) draw.now "reuse_detected" f),
      )
    ]
  ]

  -- Whatever the outcome of a refresh, no family has two live tokens in the database afterwards,
  -- if none had before.
  pub refresh_with-IsSingle :
      IsSingle db → IsSingle (request (refresh_with lib raw draw client) db).1
  refresh_with-IsSingle h = record {
    at_family = λ f. omega (arith, h.at_family f, refresh_with-live_count-le f);
  }

  -- A refresh with a token that was revoked before is refused, and leaves its family without a live
  -- token in the database.
  pub reuse_kills_family :
      (row : RefreshToken)
      → presented lib raw db ≡ some row
      → is_live row ≡ false
      → let (r, db') = request (refresh_with lib raw draw client) db in
        (r ≡ err reuse_error) × (live_count row.family_id db' ≡ 0)
  unfolding refresh_with
  reuse_kills_family row found dead = (
    ground arith,
    ground (
      arith,
      count_where-update_where_none (live_in_family row.family_id) (live_in_family row.family_id)
          (revoke draw.now "reuse_detected") db.refresh_tokens
          (live-revoke_family row.family_id draw.now "reuse_detected"),
    ),
  )

  -- A refresh with a token that was revoked before leaves the number of live tokens of every other
  -- family in the database.
  reuse_spares_others :
      (row : RefreshToken) (f : ℕ)
      → presented lib raw db ≡ some row
      → is_live row ≡ false
      → f ≢ row.family_id
      → live_count f (request (refresh_with lib raw draw client) db).1 ≡ live_count f db
  unfolding refresh_with
  reuse_spares_others row f found dead other = ground (
    arith,
    count_where-update_where-eq (live_in_family f) (live_in_family row.family_id)
        (revoke draw.now "reuse_detected") db.refresh_tokens
        (live-revoke_other f row.family_id draw.now "reuse_detected" other),
  )

  -- A refresh that returns found a live token of an active user, and has put the token's successor
  -- behind the table with that token revoked.
  rotated_tokens :
      (tokens : IssuedTokens)
      → (request (refresh_with lib raw draw client) db).0 ≡ ok tokens
      → (row : RefreshToken) × (u : User) × (presented lib raw db ≡ some row)
        × (is_live row ≡ true)
        × ((request (refresh_with lib raw draw client) db).1.refresh_tokens
            ≡ update_where (λ t. t.id == row.id) (revoke draw.now "rotated") db.refresh_tokens
              ++ new_refresh lib u draw (some row.family_id) (some row.id) client ∷ [])
  unfolding refresh_with
  rotated_tokens tokens e = elim (Option-cases (presented lib raw db)) [
    | inl missing ↦ absurd (ground arith)
    | inr (row, found) ↦ elim (Option-cases (find_user row.user_id db)) [
      | inl no_user ↦ absurd (ground arith)
      | inr (u, user) ↦ (row, u, found, ground arith, ground arith)
    ]
  ]

module _ (lib : Library) (raw : String) (draw draw' : Draw) (client client' : Client) where
  -- A token with which a refresh succeeded is dead: presenting it again, in the next refresh, is
  -- refused as reuse, and then no token of its family is live, the one that the first refresh issued
  -- included.
  pub replay_after_rotation :
      (db : AuthDb) (tokens : IssuedTokens)
      → (request (refresh_with lib raw draw client) db).0 ≡ ok tokens
      → let first = (request (refresh_with lib raw draw client) db).1 in
        let (r, second) = request (refresh_with lib raw draw' client') first in
        (r ≡ err reuse_error)
        × ((row : RefreshToken) × (presented lib raw db ≡ some row)
            × (live_count row.family_id second ≡ 0))
  replay_after_rotation db tokens e =
      let (row, u, found, live, after) = rotated_tokens lib raw draw client db tokens e in
      let (refused, dead) =
        reuse_kills_family lib raw draw' client' (request (refresh_with lib raw draw client) db).1
          (revoke draw.now "rotated" row)
          (rw after (
            find_where-append (has_hash (lib.hash_token raw))
              (update_where (λ t. t.id == row.id) (revoke draw.now "rotated") db.refresh_tokens)
              (new_refresh lib u draw (some row.family_id) (some row.id) client ∷ [])
              (revoke draw.now "rotated" row)
              (ground (
                arith,
                found,
                find_where-update_where (has_hash (lib.hash_token raw)) (λ t. t.id == row.id)
                    (revoke draw.now "rotated") db.refresh_tokens
                    (has_hash-revoke (λ t. t.id == row.id) draw.now "rotated" (lib.hash_token raw)),
              ))))
          refl in
      (refused, (row, found, dead))
