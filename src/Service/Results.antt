-- ===== src/Service/Results.antt =====
-- What a caller of `ShortenURL` and `Redirect` gets, whatever the repositories do.
use production_ready_url_sho.Common.{
  ℕ, zero, suc, ◌+◌, ◌≡◌, ◌⊎◌, ◌≤◌, ◌<◌, inl, inr, refl, String, false, List, arith, eq_iff,
  Bool-cases, ◌==◌,
}
use production_ready_url_sho.Failure.{GoError, wrapped, not_found, is, Result, ok, err}
use production_ready_url_sho.Context.{Ctx}
use production_ready_url_sho.Model.{Stamp, Url, new_url}
use production_ready_url_sho.Keygen.{short_key_from_url, max_collision_retries}
use production_ready_url_sho.Keygen.Decimal.{salted}
use production_ready_url_sho.Repository.{UrlRepository, RequestRepository}
use production_ready_url_sho.Service.{
  Probe, existing, free, failed, settle, probe, store, conclude, shorten_url,
}

-- The keys that the loop tries, by the number of collisions before.
abbrev pub candidate : (String → List ℕ) → String → ℕ → String
candidate sum256 original zero = short_key_from_url sum256 original
candidate sum256 original (suc n) = short_key_from_url sum256 (salted original (suc n))

module _ {S : Type 0} (sum256 : String → List ℕ) (urls : UrlRepository S) where
  -- How a probe may end by the round `last`.
  abbrev pub Ends : Ctx → String → ℕ → Probe → Type 0
  Ends ctx original last (existing u) = u.url ≡ original
  Ends ctx original last (free key) = (n : ℕ) × (n ≤ last) × (key ≡ candidate sum256 original n)
  Ends ctx original last (failed e) =
      (n : ℕ) × (s : S) × (inner : GoError) × (n < last)
      × ((urls.get_by_short_key ctx (candidate sum256 original n) s).0 ≡ err inner)
      × (e ≡ wrapped "lookup short key" inner)
      × (is inner not_found ≡ false)

  settle-Ends :
      (ctx : Ctx) (original : String) (n last : ℕ) (retry : S → Probe × S) (asked : S)
      (r : Result Url × S)
      → n < last
      → (urls.get_by_short_key ctx (candidate sum256 original n) asked).0 ≡ r.0
      → ((s : S) → Ends ctx original last (retry s).0)
      → Ends ctx original last (settle original (candidate sum256 original n) retry r).0
  unfolding settle
  settle-Ends ctx original n last retry asked (ok u, s) h answer k =
      elim (Bool-cases (u.url == original)) [
        | inl same ↦ rw same ((eq_iff u.url original).0 same)
        | inr other ↦ rw other (k s)
      ]
  settle-Ends ctx original n last retry asked (err e, s) h answer k =
      elim (Bool-cases (is e not_found)) [
        | inl missing ↦ rw missing (n, omega (arith, h), refl)
        | inr broken ↦ rw broken (n, asked, e, h, answer, refl, broken)
      ]

  pub probe-Ends :
      (ctx : Ctx) (original : String) (rounds n last : ℕ) (s : S)
      → n + rounds ≤ last
      → Ends ctx original last
          (probe sum256 urls ctx original rounds n (candidate sum256 original n) s).0
  unfolding probe
  probe-Ends ctx original zero n last s h = (n, omega arith, refl)
  probe-Ends ctx original (suc rounds) n last s h =
      settle-Ends ctx original n last _ s
        (urls.get_by_short_key ctx (candidate sum256 original n) s) (omega arith) refl
        (λ s'. probe-Ends ctx original rounds (suc n) last s' (omega arith))

  -- What a result says of the URL that was asked for.
  abbrev pub Says : Ctx → Stamp → String → Result Url → Type 0
  Says ctx st original (ok u) = u.url ≡ original
  Says ctx st original (err e) =
      Ends ctx original (suc max_collision_retries) (failed e)
      ⊎ ((n : ℕ) × (s : S) × (inner : GoError) × (n ≤ suc max_collision_retries)
          × ((urls.create ctx (new_url st original (candidate sum256 original n)) s).0 ≡ err inner)
          × (e ≡ wrapped "create url" inner))

module _ {S : Type 0} (sum256 : String → List ℕ) (urls : UrlRepository S)
    (requests : RequestRepository S) where
  store-Says :
      (ctx : Ctx) (st log_st : Stamp) (original agent : String) (n : ℕ) (asked : S)
      (r : Result (Unit {0}) × S)
      → n ≤ suc max_collision_retries
      → (urls.create ctx (new_url st original (candidate sum256 original n)) asked).0 ≡ r.0
      → Says sum256 urls ctx st original
          (store sum256 urls requests ctx log_st agent
            (new_url st original (candidate sum256 original n))
            r).0
  unfolding store new_url
  store-Says ctx st log_st original agent n asked (ok _, s) h answer = refl
  store-Says ctx st log_st original agent n asked (err e, s) h answer =
      inr (n, asked, e, h, answer, refl)

  conclude-Says :
      (ctx : Ctx) (st log_st : Stamp) (original agent : String) (p : Probe × S)
      → Ends sum256 urls ctx original (suc max_collision_retries) p.0
      → Says sum256 urls ctx st original
          (conclude sum256 urls requests ctx st log_st original agent p).0
  unfolding conclude
  conclude-Says ctx st log_st original agent (existing u, s) h = h
  conclude-Says ctx st log_st original agent (free key, s) (n, h, same) = rw same (
      store-Says ctx st log_st original agent n s
        (urls.create ctx (new_url st original (candidate sum256 original n)) s) h refl)
  conclude-Says ctx st log_st original agent (failed e, s) h = inl h

  -- Over any repositories, whatever they answer: if `ShortenURL` returns a URL it is one for exactly
  -- the text that was asked for; if it returns an error, that wraps either an error other than
  -- "record not found" that the repository's lookup of one of the six first keys returns, as
  -- "lookup short key", or an error that the repository's insertion of a new URL for that text under
  -- one of the seven keys returns, as "create url".
  pub shorten_url-Says :
      (ctx : Ctx) (st log_st : Stamp) (original agent : String) (s : S)
      → Says sum256 urls ctx st original
          (shorten_url sum256 urls requests ctx st log_st original agent s).0
  unfolding shorten_url
  shorten_url-Says ctx st log_st original agent s = conclude-Says ctx st log_st original agent _ (
      probe-Ends sum256 urls ctx original (suc max_collision_retries) 0 (suc max_collision_retries)
        s (omega arith))

module _ {S : Type 0} (sum256 : String → List ℕ) (urls : UrlRepository S)
    (one other : RequestRepository S) where
  store_log_irrelevant :
      (ctx : Ctx) (log_st : Stamp) (agent : String) (u : Url) (r : Result (Unit {0}) × S)
      → (store sum256 urls one ctx log_st agent u r).0
        ≡ (store sum256 urls other ctx log_st agent u r).0
  unfolding store
  store_log_irrelevant ctx log_st agent u (ok _, s) = refl
  store_log_irrelevant ctx log_st agent u (err e, s) = refl

  conclude_log_irrelevant :
      (ctx : Ctx) (st log_st : Stamp) (original agent : String) (p : Probe × S)
      → (conclude sum256 urls one ctx st log_st original agent p).0
        ≡ (conclude sum256 urls other ctx st log_st original agent p).0
  unfolding conclude
  conclude_log_irrelevant ctx st log_st original agent (existing u, s) = refl
  conclude_log_irrelevant ctx st log_st original agent (free key, s) =
      store_log_irrelevant ctx log_st agent (new_url st original key) (urls.create ctx _ s)
  conclude_log_irrelevant ctx st log_st original agent (failed e, s) = refl

  -- The request log never decides the answer: with two request repositories, one of which may fail
  -- every call, `ShortenURL` returns the same.
  pub log_irrelevant :
      (ctx : Ctx) (st log_st : Stamp) (original agent : String) (s : S)
      → (shorten_url sum256 urls one ctx st log_st original agent s).0
        ≡ (shorten_url sum256 urls other ctx st log_st original agent s).0
  unfolding shorten_url
  log_irrelevant ctx st log_st original agent s =
      conclude_log_irrelevant ctx st log_st original agent _
