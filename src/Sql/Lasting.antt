-- ===== src/Sql/Lasting.antt =====
-- What other statements do to a key that resolves.
use production_ready_url_sho.Common.{
  ℕ, ◌≡◌, ◌∙◌, refl, ap, String, List, [], ◌∷◌, Option, none, some, map, All, false, arith,
  Bool-cases, inl, inr, ltb, chars, eq_iff,
}
use production_ready_url_sho.Model.{Url, IncomingRequest}
use production_ready_url_sho.Sql.{
  Command, insert_url, update_last_used, delete_unused, insert_request, Tables, execute,
  insert_into_urls, insert_into_requests, touch, has_id, has_live_key, as_inserted,
}
use production_ready_url_sho.Sql.Selecting.{find_live, find_live-none}

-- Every statement but the one of the cleanup.
abbrev pub Spares : Command → Type 0
Spares (insert_url u) = Unit
Spares (update_last_used at id) = Unit
Spares (delete_unused at cutoff) = ⊥
Spares (insert_request r) = Unit

-- Statements of any clients, one after the other.
unfoldable pub run_all : List Command → Tables → Tables
run_all [] t = t
run_all (c ∷ cs) t = run_all cs (execute c t).1

-- A key leads to a URL, by a row with an identifier.
pub record LeadsTo (key url id : String) (us : List Url) : Type 0 where
  pub row : Url
  pub found : find_live key us ≡ some row
  pub target : row.url ≡ url
  pub named : row.id ≡ id

unfoldable pub touched : ℕ → String → Option Url → Option Url
touched at id none = none
touched at id (some u) = some (touch at id u)

pub find_live-map-touch :
    (at : ℕ) (id key : String) (us : List Url)
    → find_live key (map (touch at id) us) ≡ touched at id (find_live key us)
unfolding find_live touched touch
find_live-map-touch at id key [] = refl
find_live-map-touch at id key (u ∷ us) = ground (arith, find_live-map-touch at id key us)

pub url-touch : (at : ℕ) (id : String) (row : Url) → (touch at id row).url ≡ row.url
unfolding touch
url-touch at id row = ground arith

pub id-touch : (at : ℕ) (who : String) (row : Url) → (touch at who row).id ≡ row.id
unfolding touch
id-touch at who row = ground arith

module _ (key url id : String) where
  LeadsTo-touch :
      (at : ℕ) (who : String) (us : List Url)
      → LeadsTo key url id us
      → LeadsTo key url id (map (touch at who) us)
  unfolding touched
  LeadsTo-touch at who us h = record {
    row = touch at who h.row;
    found = find_live-map-touch at who key us ∙ ap (touched at who) h.found;
    target = url-touch at who h.row ∙ h.target;
    named = id-touch at who h.row ∙ h.named;
  }

  -- A row that passes the checks of the `INSERT` does not stand before one that is found.
  LeadsTo-cons :
      (u : Url) (us : List Url)
      → has_live_key u.short_key us ≡ false
      → LeadsTo key url id us
      → LeadsTo key url id (as_inserted u ∷ us)
  unfolding find_live
  LeadsTo-cons u us room h =
      let missing = (find_live-none u.short_key us).1 room in
      record {
        row = h.row;
        found = ground (arith, eq_iff u.short_key key, missing, h.found);
        target = h.target;
        named = h.named;
      }

  LeadsTo-insert :
      (u : Url) (t : Tables)
      → LeadsTo key url id t.urls
      → LeadsTo key url id (insert_into_urls u t).1.urls
  unfolding insert_into_urls
  LeadsTo-insert u t h = elim (Bool-cases (ltb 11 (chars u.short_key))) [
    | inl long ↦ rw long h
    | inr fits ↦ elim (Bool-cases (has_id u.id t.urls)) [
      | inl taken ↦ rw (fits, taken) h
      | inr fresh ↦ elim (Bool-cases (has_live_key u.short_key t.urls)) [
        | inl full ↦ rw (fits, fresh, full) h
        | inr room ↦ rw (fits, fresh, room) (LeadsTo-cons u t.urls room h)
      ]
    ]
  ]

  requests-urls : (r : IncomingRequest) (t : Tables) → (insert_into_requests r t).1.urls ≡ t.urls
  unfolding insert_into_requests
  requests-urls r t = ground arith

  LeadsTo-execute :
      (c : Command) (t : Tables)
      → Spares c
      → LeadsTo key url id t.urls
      → LeadsTo key url id (execute c t).1.urls
  unfolding execute
  LeadsTo-execute (insert_url u) t fine h = LeadsTo-insert u t h
  LeadsTo-execute (update_last_used at who) t fine h = LeadsTo-touch at who t.urls h
  LeadsTo-execute (delete_unused at cutoff) t fine h = absurd fine
  LeadsTo-execute (insert_request r) t fine h = rw (requests-urls r t) h

  pub LeadsTo-run_all :
      (cs : List Command) (t : Tables)
      → All Spares cs
      → LeadsTo key url id t.urls
      → LeadsTo key url id (run_all cs t).urls
  unfolding run_all
  LeadsTo-run_all [] t fine h = h
  LeadsTo-run_all (c ∷ cs) t (fine, rest) h =
      LeadsTo-run_all cs (execute c t).1 rest (LeadsTo-execute c t fine h)
