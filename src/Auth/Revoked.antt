-- ===== src/Auth/Revoked.antt =====
-- A token that was logged out stays refused, whatever requests come after.
use msa_tuto_server.Base.{
  ℕ, zero, suc, ◌-◌, ◌*◌, ◌/◌, ◌≤◌, String, ◌≡◌, ◌≢◌, refl, sym, ◌∙◌, ap, subst, Option, none, some,
  [], ◌∷◌, ◌==◌, eq_iff, eqb, ltb, template, false≢true, Bool-cases, inl, inr,
}
use text.Mathlib.TextLemmas.{append_cancel_left, append_cancel_right}
use msa_tuto_server.Http.{Result, ok, err}
use msa_tuto_server.Http.Moves.{Moves, IsPath, Moves-bind, Moves-rethrow}
use msa_tuto_server.Auth.Tokens.{
  Payload, Jwt, Texts, Redis, ceil_seconds, refresh_key, blacklist_key, blacklist_value,
  store_refresh, store_decoded, store_payload, save_refresh_token, blacklist, revoke, logout,
  logout_failure, validate_listed, validate_jwt_token,
}
use msa_tuto_server.Auth.Logout.{keys_apart, Reads-none, revoke-blacklist}

blacklist_key_inj : (j k : String) → blacklist_key j ≡ blacklist_key k → j ≡ k
blacklist_key_inj j k h =
    append_cancel_right j k ""
      (append_cancel_left "blacklist:" (template (j ∷ [])) (template (k ∷ [])) h)

-- The token is not accepted from the time `since` on.
pub record IsRevoked {K : Type 0} (redis : Redis K) (jwt : Jwt) (token : String) (since : ℕ) (s : K)
    : Type 0 where
  pub run : (now : ℕ) → since ≤ now → validate_jwt_token redis jwt now token s ≡ none

module _ {K : Type 0} (redis : Redis K) (jwt : Jwt) (token : String) (since : ℕ) where
  abbrev pub StaysRevoked : K → K → Type 0
  StaysRevoked s t = IsRevoked redis jwt token since s → IsRevoked redis jwt token since t

  pub StaysRevoked-IsPath : IsPath StaysRevoked
  StaysRevoked-IsPath = record { stay = λ s h. h; follow = λ s t u f g h. g (f h) }

  -- Only the entry of the token on the blacklist counts.
  same_entry :
      (s t : K)
      → ((now : ℕ) → redis.get now (blacklist_key token) t ≡ redis.get now (blacklist_key token) s)
      → StaysRevoked s t
  unfolding validate_jwt_token
  same_entry s t q h = record {
    run = λ now later. ap (validate_listed redis jwt now token) (q now) ∙ h.run now later;
  }

  del_refresh-StaysRevoked :
      (user_id : String) → Moves StaysRevoked (redis.del (refresh_key user_id))
  del_refresh-StaysRevoked user_id = record {
    run = λ s.
        same_entry s _
          (λ now. redis.del_law now (refresh_key user_id) _ s (keys_apart user_id token));
  }

  module _ (texts : Texts) (now : ℕ) (user_id refresh : String) where
    set_refresh-StaysRevoked :
        (v : String) (ttl : Option ℕ)
        → Moves StaysRevoked (redis.set now (refresh_key user_id) v ttl)
    set_refresh-StaysRevoked v ttl = record {
      run = λ s. same_entry s _ (λ later.
          redis.set_other_law now later (refresh_key user_id) _ v ttl s (keys_apart user_id token));
    }

    store_refresh-StaysRevoked :
        (exp : ℕ) → Moves StaysRevoked (store_refresh redis jwt texts now user_id refresh exp)
    store_refresh-StaysRevoked exp = elim (Bool-cases (ltb exp (now / 1000))) [
      | inl t ↦ rw t (record { run = λ s h. h })
      | inr f ↦ elim (Bool-cases (eqb exp (now / 1000))) [
        | inl t ↦ rw (f, t) (set_refresh-StaysRevoked _ none)
        | inr g ↦ rw (f, g) (set_refresh-StaysRevoked _ (some (exp - now / 1000)))
      ]
    ]

    store_decoded-StaysRevoked :
        (exp : Option ℕ)
        → Moves StaysRevoked (store_decoded redis jwt texts now user_id refresh exp)
    store_decoded-StaysRevoked none = record { run = λ s h. h }
    store_decoded-StaysRevoked (some zero) = record { run = λ s h. h }
    store_decoded-StaysRevoked (some (suc e)) = store_refresh-StaysRevoked (suc e)

    store_payload-StaysRevoked :
        (p : Option Payload)
        → Moves StaysRevoked (store_payload redis jwt texts now user_id refresh p)
    store_payload-StaysRevoked none = record { run = λ s h. h }
    store_payload-StaysRevoked (some p) = store_decoded-StaysRevoked p.exp

    pub save_refresh_token-StaysRevoked :
        Moves StaysRevoked (save_refresh_token redis jwt texts now user_id refresh)
    unfolding save_refresh_token
    save_refresh_token-StaysRevoked = store_payload-StaysRevoked (jwt.decode refresh)

  -- Another token has another entry.
  other_token :
      (now : ℕ) (user_id t : String) (exp : Option ℕ)
      → t ≢ token
      → Moves StaysRevoked (blacklist redis jwt now user_id t exp)
  other_token now user_id t none apart = record { run = λ s h. h }
  other_token now user_id t (some e) apart = elim (Bool-cases (ltb now (e * 1000))) [
    | inr f ↦ rw f (record { run = λ s h. h })
    | inl g ↦ rw g (record {
      run = λ s. same_entry s _ (λ later.
          redis.set_other_law now later (blacklist_key t) _ _ _ s
            (λ q. apart (blacklist_key_inj t token q)));
    })
  ]

  other_payload :
      (now : ℕ) (user_id t : String) (p : Option Payload)
      → t ≢ token
      → Moves StaysRevoked (revoke redis jwt now user_id t p)
  other_payload now user_id t none apart = record { run = λ s h. h }
  other_payload now user_id t (some p) apart = other_token now user_id t p.exp apart

  module _ (p : Payload) (e : ℕ) (decoded : jwt.decode token ≡ some p) (ends : p.exp ≡ some e) where
    set_again :
        (now : ℕ) (user_id : String) (s : K) (r : Result (Unit {0}) × K)
        → redis.set now
            (blacklist_key token)
            (blacklist_value user_id)
            (some (ceil_seconds (e * 1000 - now)))
            s
          ≡ r
        → StaysRevoked s r.1
    set_again now user_id s (ok u, t) q h = record {
      run = λ later after.
          Reads-none redis jwt now later user_id token p e t decoded ends
            (redis.set_law now later (blacklist_key token) (blacklist_value user_id) _ s t q);
    }
    set_again now user_id s (err m, t) q h = record {
      run = λ later after.
          elim (redis.set_failed_law now later (blacklist_key token) (blacklist_value user_id) _ s t
            m q) [
              | inl same ↦ unchanged later after same
              | inr r ↦ Reads-none redis jwt now later user_id token p e t decoded ends r
            ];
    }
      where
        unchanged :
            (later : ℕ)
            → since ≤ later
            → redis.get later (blacklist_key token) t ≡ redis.get later (blacklist_key token) s
            → validate_jwt_token redis jwt later token t ≡ none
        unchanged later after same =
            unfold validate_jwt_token in
            (ap (validate_listed redis jwt later token) same ∙ h.run later after)

    same_token :
        (now : ℕ) (user_id : String)
        → Moves StaysRevoked (blacklist redis jwt now user_id token (some e))
    same_token now user_id = elim (Bool-cases (ltb now (e * 1000))) [
      | inr f ↦ rw f (record { run = λ s h. h })
      | inl g ↦ rw g (record { run = λ s. set_again now user_id s _ refl })
    ]

    revoke-StaysRevoked :
        (now : ℕ) (user_id t : String)
        → Moves StaysRevoked (revoke redis jwt now user_id t (jwt.decode t))
    revoke-StaysRevoked now user_id t = elim (Bool-cases (t == token)) [
      | inr f ↦
          other_payload now user_id t (jwt.decode t)
            (λ q. false≢true (sym f ∙ (eq_iff t token).1 q))
      | inl g ↦
          subst (λ u. Moves StaysRevoked (revoke redis jwt now user_id u (jwt.decode u)))
            (sym ((eq_iff t token).0 g))
            (record {
              run = λ s.
                  subst (λ (r : Result (Unit {0}) × K). StaysRevoked s r.1)
                    (sym (revoke-blacklist redis jwt now user_id token p e s decoded ends))
                    ((same_token now user_id).run s);
            })
    ]

    pub logout-StaysRevoked :
        (now : ℕ) (user_id t : String) → Moves StaysRevoked (logout redis jwt now user_id t)
    unfolding logout
    logout-StaysRevoked now user_id t = Moves-rethrow StaysRevoked (logout_failure redis jwt) _ (
        Moves-bind StaysRevoked-IsPath _ _ (revoke-StaysRevoked now user_id t)
          (λ done. del_refresh-StaysRevoked user_id))
