-- ===== src/Service/OnTables.antt =====
-- `ShortenURL` on the tables: what the loop reads and what is left behind.
use production_ready_url_sho.Common.{
  ℕ, zero, suc, ◌≡◌, ◌⊎◌, inl, inr, ◌∙◌, refl, sym, ap, String, List, ◌∷◌, Option, none, some,
  false, Bool-cases, Option-cases, ◌==◌, eq_iff, arith,
}
use production_ready_url_sho.Failure.{is}
use production_ready_url_sho.Context.{Ctx}
use production_ready_url_sho.Model.{Stamp, Url}
use production_ready_url_sho.Sql.{Tables, execute, insert_into_requests, as_inserted, columns}
use production_ready_url_sho.Sql.Selecting.{find_live, find_live_sound}
use production_ready_url_sho.Repository.{filled}
use production_ready_url_sho.Repository.Calm.{table_urls, table_requests}
use production_ready_url_sho.Service.{Probe, existing, free, failed, probe, log_request}
use production_ready_url_sho.Service.Results.{candidate}

-- A log entry leaves the URLs alone.
pub log_request-urls :
    (sum256 : String → List ℕ) (ctx : Ctx) (st : Stamp) (id agent : String) (t : Tables)
    → (log_request sum256 table_urls table_requests ctx st id agent t).urls ≡ t.urls
unfolding log_request execute insert_into_requests
log_request-urls sum256 ctx st id agent t = ground arith

-- What a lookup says of the table.
abbrev pub Stops : String → Option Url → Type 0
Stops original none = Unit
Stops original (some row) = row.url ≡ original

module _ (sum256 : String → List ℕ) (ctx : Ctx) (original : String) where
  abbrev pub key_of : ℕ → String
  key_of n = candidate sum256 original n

  abbrev pub look : ℕ → Tables → Option Url
  look n t = find_live (key_of n) t.urls

  -- What a probe has found, in an unchanged table.
  abbrev pub Found : Tables → Probe → Type 0
  Found t (existing u) =
      (row : Url) × (find_live u.short_key t.urls ≡ some row)
      × (u ≡ filled (columns row))
      × (row.url ≡ original)
  Found t (free key) = Unit
  Found t (failed e) = ⊥

  round_zero :
      (n : ℕ) (t : Tables)
      → probe sum256 table_urls ctx original zero n (key_of n) t ≡ (free (key_of n), t)
  unfolding probe
  round_zero n t = refl

  -- The three ways in which a round goes.
  pub round_none :
      (rounds n : ℕ) (t : Tables)
      → look n t ≡ none
      → probe sum256 table_urls ctx original (suc rounds) n (key_of n) t ≡ (free (key_of n), t)
  unfolding probe is
  round_none rounds n t e = rw e refl

  round_same :
      (rounds n : ℕ) (t : Tables) (row : Url)
      → look n t ≡ some row
      → row.url ≡ original
      → probe sum256 table_urls ctx original (suc rounds) n (key_of n) t
        ≡ (existing (filled (columns row)), t)
  unfolding probe
  round_same rounds n t row e h = rw e (rw ((eq_iff row.url original).1 h) refl)

  round_other :
      (rounds n : ℕ) (t : Tables) (row : Url)
      → look n t ≡ some row
      → (row.url == original) ≡ false
      → probe sum256 table_urls ctx original (suc rounds) n (key_of n) t
        ≡ probe sum256 table_urls ctx original rounds (suc n) (key_of (suc n)) t
  unfolding probe
  round_other rounds n t row e h = rw e (rw h refl)

  pub probe-Found :
      (rounds n : ℕ) (t : Tables)
      → let p = probe sum256 table_urls ctx original rounds n (key_of n) t in
        (p.1 ≡ t) × Found t p.0
  probe-Found zero n t = unfold probe in (refl, tt)
  probe-Found (suc rounds) n t = elim (Option-cases (look n t)) [
    | inl missing ↦ rw (round_none rounds n t missing) (refl, tt)
    | inr (row, there) ↦ elim (Bool-cases (row.url == original)) [
      | inl same ↦
          let e = (eq_iff row.url original).0 same in
          rw (round_same rounds n t row there e) (
            refl,
            (
              row,
              ap (λ k. find_live k t.urls) (find_live_sound (key_of n) t.urls row there).0 ∙ there,
              refl,
              e,
            ),
          )
      | inr other ↦ rw (round_other rounds n t row there other) (probe-Found rounds (suc n) t)
    ]
  ]

  -- A probe reads the URLs alone.
  probe-urls :
      (rounds n : ℕ) (t t' : Tables)
      → t.urls ≡ t'.urls
      → (probe sum256 table_urls ctx original rounds n (key_of n) t).0
        ≡ (probe sum256 table_urls ctx original rounds n (key_of n) t').0
  probe-urls zero n t t' e = cc (round_zero n t, round_zero n t')
  probe-urls (suc rounds) n t t' e =
      let same = ap (find_live (key_of n)) (sym e) in
      elim (Option-cases (look n t)) [
        | inl missing ↦
            ap (λ p. p.0) (round_none rounds n t missing ∙ refl)
            ∙ ap (λ p. p.0) (sym (round_none rounds n t' (same ∙ missing)))
        | inr (row, there) ↦ elim (Bool-cases (row.url == original)) [
          | inl known ↦
              let k = (eq_iff row.url original).0 known in
              ap (λ p. p.0) (round_same rounds n t row there k)
              ∙ ap (λ p. p.0) (sym (round_same rounds n t' row (same ∙ there) k))
          | inr other ↦
              ap (λ p. p.0) (round_other rounds n t row there other)
              ∙ probe-urls rounds (suc n) t t' e
              ∙ ap (λ p. p.0) (sym (round_other rounds n t' row (same ∙ there) other))
        ]
      ]

  -- The same, with the tables that come back.
  pub probe_transfer :
      (rounds n : ℕ) (t t' : Tables) (p : Probe)
      → t.urls ≡ t'.urls
      → probe sum256 table_urls ctx original rounds n (key_of n) t ≡ (p, t)
      → probe sum256 table_urls ctx original rounds n (key_of n) t' ≡ (p, t')
  probe_transfer rounds n t t' p e h =
      let back = (probe-Found rounds n t').0 in
      let same = probe-urls rounds n t t' e in cc (back, same, h)

  -- The loop ends by a lookup, in a round from `n` on.
  abbrev pub EndsByLookup : (rounds n : ℕ) → Tables → Type 0
  EndsByLookup zero n t = ⊥
  EndsByLookup (suc rounds) n t = Stops original (look n t) ⊎ EndsByLookup rounds (suc n) t

  pub probe_never :
      (rounds n : ℕ) (t : Tables)
      → ¬ EndsByLookup rounds n t
      → (key : String) × (probe sum256 table_urls ctx original rounds n (key_of n) t
          ≡ (free key, t))
  probe_never zero n t never = (key_of n, round_zero n t)
  probe_never (suc rounds) n t never = elim (Option-cases (look n t)) [
    | inl missing ↦ absurd (never (inl (rw missing tt)))
    | inr (row, there) ↦ elim (Bool-cases (row.url == original)) [
      | inl known ↦ absurd (never (inl (rw there ((eq_iff row.url original).0 known))))
      | inr other ↦
          rw (round_other rounds n t row there other)
            (probe_never rounds (suc n) t (λ later. never (inr later)))
    ]
  ]

  module _ (t : Tables) (u : Url) (same : u.url ≡ original)
      (room : find_live u.short_key t.urls ≡ none) where
    abbrev pub grown : Tables
    grown = record t { urls = as_inserted u ∷ t.urls }

    look-grown : (n : ℕ) (row : Url) → look n t ≡ some row → look n grown ≡ some row
    unfolding find_live
    look-grown n row there = ground (arith, eq_iff u.short_key (key_of n))

    look_inserted : (n : ℕ) → u.short_key ≡ key_of n → look n grown ≡ some (as_inserted u)
    unfolding find_live
    look_inserted n e = rw ((eq_iff u.short_key (key_of n)).1 e) refl

    -- After the row that a probe asked for is inserted, a probe finds it.
    pub probe_again :
        (rounds n : ℕ)
        → probe sum256 table_urls ctx original rounds n (key_of n) t ≡ (free u.short_key, t)
        → EndsByLookup rounds n t
        → probe sum256 table_urls ctx original rounds n (key_of n) grown
          ≡ (existing (filled (columns (as_inserted u))), grown)
    probe_again zero n h ends = absurd ends
    probe_again (suc rounds) n h ends = elim (Option-cases (look n t)) [
      | inl missing ↦
          round_same rounds n grown (as_inserted u)
            (look_inserted n (cc (h, round_none rounds n t missing))) same
      | inr (row, there) ↦ elim (Bool-cases (row.url == original)) [
        | inl known ↦ cc (h, round_same rounds n t row there ((eq_iff row.url original).0 known))
        | inr other ↦
            round_other rounds n grown row (look-grown n row there) other
            ∙ probe_again rounds (suc n) (sym (round_other rounds n t row there other) ∙ h)
                (elim ends [
                  | inl stops ↦ cc ((eq_iff row.url original).1 (rw there at stops), other)
                  | inr later ↦ later
                ])
      ]
    ]

    -- With every candidate taken by another URL, a probe goes through all rounds, before and after.
    pub probe_exhausted :
        (rounds n : ℕ)
        → probe sum256 table_urls ctx original rounds n (key_of n) t ≡ (free u.short_key, t)
        → ¬ EndsByLookup rounds n t
        → probe sum256 table_urls ctx original rounds n (key_of n) grown ≡ (free u.short_key, grown)
    probe_exhausted zero n h never = cc (h, round_zero n t, round_zero n grown)
    probe_exhausted (suc rounds) n h never = elim (Option-cases (look n t)) [
      | inl missing ↦ absurd (never (inl (rw missing tt)))
      | inr (row, there) ↦ elim (Bool-cases (row.url == original)) [
        | inl known ↦ absurd (never (inl (rw there ((eq_iff row.url original).0 known))))
        | inr other ↦
            round_other rounds n grown row (look-grown n row there) other
            ∙ probe_exhausted rounds (suc n) (sym (round_other rounds n t row there other) ∙ h)
                (λ later. never (inr later))
      ]
    ]
