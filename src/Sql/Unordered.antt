-- ===== src/Sql/Unordered.antt =====
-- The order in which a table holds its rows does not matter to any statement.
use mathlib.Core.List.{Permᴰ}
use mathlib.Core.Path.{subst}
use production_ready_url_sho.Common.{
  ℕ, suc, ◌≡◌, ◌∙◌, refl, sym, ap, String, Bool, List, ◌∷◌, map, keep, length, All, arith, eq_iff,
  if◌then◌else◌, ◌==◌, ◌||◌, ◌&&◌, ltb, chars, Bool-cases, inl, inr,
}
use production_ready_url_sho.Failure.{Result, ok}
use production_ready_url_sho.Model.{Url, IncomingRequest}
use production_ready_url_sho.Sql.{
  Command, insert_url, update_last_used, delete_unused, insert_request, Tables, execute,
  insert_into_urls, insert_into_requests, has_id, has_live_key, has_request_id, touch, retire,
  is_unused, is_live,
}
use production_ready_url_sho.Sql.Constraints.{Compatible, IsConsistent, execute-IsConsistent}
use production_ready_url_sho.Sql.Selecting.{find_live}

Permᴰ-map : {A B : Type 0} (f : A → B) {xs ys : List A} → Permᴰ xs ys → Permᴰ (map f xs) (map f ys)
Permᴰ-map f Permᴰ.nil = Permᴰ.nil
Permᴰ-map f (Permᴰ.cons e p) = Permᴰ.cons (ap f e) (Permᴰ-map f p)
Permᴰ-map f (Permᴰ.swap e e') = Permᴰ.swap (ap f e) (ap f e')
Permᴰ-map f (Permᴰ.trans p q) = Permᴰ.trans (Permᴰ-map f p) (Permᴰ-map f q)

-- A function that folds a list by steps which may be swapped does not see the order.
fold-Permᴰ :
    {A B : Type 0} (f : List A → B) (step : A → B → B)
    → ((x : A) (xs : List A) → f (x ∷ xs) ≡ step x (f xs))
    → ((x y : A) (b : B) → step x (step y b) ≡ step y (step x b))
    → {xs ys : List A} → Permᴰ xs ys
    → f xs ≡ f ys
fold-Permᴰ f step folds swaps Permᴰ.nil = refl
fold-Permᴰ f step folds swaps (Permᴰ.cons {b = b} {l₁ = xs} {l₂ = ys} e p) =
    rw (e, folds b xs, folds b ys) (ap (step b) (fold-Permᴰ f step folds swaps p))
fold-Permᴰ f step folds swaps (Permᴰ.swap {a' = a'} {b' = b'} {l = xs} e e') =
    rw (e, e', folds b' (a' ∷ xs), folds a' xs, folds a' (b' ∷ xs), folds b' xs)
      (swaps b' a' (f xs))
fold-Permᴰ f step folds swaps (Permᴰ.trans p q) =
    fold-Permᴰ f step folds swaps p ∙ fold-Permᴰ f step folds swaps q

length-keep-Permᴰ :
    {A : Type 0} (t : A → Bool) {xs ys : List A}
    → Permᴰ xs ys
    → length (keep t xs) ≡ length (keep t ys)
length-keep-Permᴰ t =
    fold-Permᴰ (λ xs. length (keep t xs)) (λ x n. if t x then suc n else n) (λ x xs. ground arith)
      (λ x y n. ground arith)

has_id-Permᴰ : (id : String) {us vs : List Url} → Permᴰ us vs → has_id id us ≡ has_id id vs
unfolding has_id
has_id-Permᴰ id =
    fold-Permᴰ (has_id id) (λ u b. u.id == id || b) (λ u us. refl) (λ u v b. ground arith)

has_live_key-Permᴰ :
    (key : String) {us vs : List Url} → Permᴰ us vs → has_live_key key us ≡ has_live_key key vs
unfolding has_live_key
has_live_key-Permᴰ key =
    fold-Permᴰ (has_live_key key) (λ u b. is_live u && u.short_key == key || b) (λ u us. refl)
      (λ u v b. ground arith)

has_request_id-Permᴰ :
    (id : String) {rs ts : List IncomingRequest}
    → Permᴰ rs ts
    → has_request_id id rs ≡ has_request_id id ts
unfolding has_request_id
has_request_id-Permᴰ id =
    fold-Permᴰ (has_request_id id) (λ r b. r.id == id || b) (λ r rs. refl) (λ r q b. ground arith)

Compatible-sym : {u v : Url} → Compatible u v → Compatible v u
Compatible-sym c = record { ids = λ e. c.ids (sym e); keys = λ lv lu e. c.keys lu lv (sym e) }

All-Permᴰ : {A : Type 0} (P : A → Type 0) {xs ys : List A} → Permᴰ xs ys → All P xs → All P ys
All-Permᴰ P Permᴰ.nil h = h
All-Permᴰ P (Permᴰ.cons e p) (h, hs) = (rw⁻¹ e h, All-Permᴰ _ p hs)
All-Permᴰ P (Permᴰ.swap e e') (h, (k, hs)) = (rw⁻¹ e' k, (rw⁻¹ e h, hs))
All-Permᴰ P (Permᴰ.trans p q) h = All-Permᴰ _ q (All-Permᴰ _ p h)

IsConsistent-Permᴰ : {us vs : List Url} → Permᴰ us vs → IsConsistent us → IsConsistent vs
IsConsistent-Permᴰ Permᴰ.nil h = h
IsConsistent-Permᴰ (Permᴰ.cons e p) (c, h) = rw⁻¹ e (All-Permᴰ _ p c, IsConsistent-Permᴰ p h)
IsConsistent-Permᴰ (Permᴰ.swap {b = b} {b' = b'} {l = us} e e') ((c, cs), (d, h)) =
    subst (λ v. IsConsistent (v ∷ b' ∷ us)) e'
      (subst (λ v. IsConsistent (b ∷ v ∷ us)) e ((Compatible-sym c, d), (cs, h)))
IsConsistent-Permᴰ (Permᴰ.trans p q) h = IsConsistent-Permᴰ q (IsConsistent-Permᴰ p h)

-- At most one row of a consistent table answers a key, so it is found in any order.
find_live-swap :
    (key : String) (u v : Url) (us : List Url)
    → Compatible u v
    → find_live key (u ∷ v ∷ us) ≡ find_live key (v ∷ u ∷ us)
unfolding find_live
find_live-swap key u v us c = ground (arith, c.keys, eq_iff u.short_key key, eq_iff v.short_key key)

pub find_live-Permᴰ :
    (key : String) {us vs : List Url}
    → Permᴰ us vs
    → IsConsistent us
    → find_live key us ≡ find_live key vs
unfolding find_live
find_live-Permᴰ key Permᴰ.nil h = refl
find_live-Permᴰ key (Permᴰ.cons e p) (c, h) = rw e (ground (arith, find_live-Permᴰ key p h))
find_live-Permᴰ key (Permᴰ.swap {a = a} {b = b} {l = us} e e') ((c, cs), h) =
    find_live-swap key a b us c ∙ rw (e, e') refl
find_live-Permᴰ key (Permᴰ.trans p q) h =
    find_live-Permᴰ key p h ∙ find_live-Permᴰ key q (IsConsistent-Permᴰ p h)

-- Consistent tables that hold the same rows.
pub record SameRows (t t' : Tables) : Type 0 where
  pub urls : Permᴰ t.urls t'.urls
  pub requests : Permᴰ t.incoming_requests t'.incoming_requests
  pub consistent : IsConsistent t.urls

-- A statement affects as many rows, or violates the same constraint, and leaves the same rows.
record Alike (x y : Result ℕ × Tables) : Type 0 where
  result : x.0 ≡ y.0
  urls : Permᴰ x.1.urls y.1.urls
  requests : Permᴰ x.1.incoming_requests y.1.incoming_requests

unchanged-Alike : (r : Result ℕ) (t t' : Tables) → SameRows t t' → Alike (r, t) (r, t')
unchanged-Alike r t t' h = record { result = refl; urls = h.urls; requests = h.requests }

insert_url-Alike :
    (u : Url) (t t' : Tables) → SameRows t t' → Alike (insert_into_urls u t) (insert_into_urls u t')
unfolding insert_into_urls
insert_url-Alike u t t' h =
    rw (← has_id-Permᴰ u.id h.urls, ← has_live_key-Permᴰ u.short_key h.urls)
      (elim (Bool-cases (ltb 11 (chars u.short_key))) [
        | inl long ↦ rw long (unchanged-Alike _ t t' h)
        | inr fits ↦ elim (Bool-cases (has_id u.id t.urls || has_live_key u.short_key t.urls)) [
          | inl taken ↦ rw (fits, taken) (unchanged-Alike _ t t' h)
          | inr fresh ↦
              rw (fits, fresh)
                (record { result = refl; urls = Permᴰ.cons refl h.urls; requests = h.requests })
        ]
      ])

insert_request-Alike :
    (r : IncomingRequest) (t t' : Tables)
    → SameRows t t'
    → Alike (insert_into_requests r t) (insert_into_requests r t')
unfolding insert_into_requests
insert_request-Alike r t t' h =
    let same = λ (x : Result ℕ). unchanged-Alike x t t' h in
    rw (← has_id-Permᴰ r.url_id h.urls, ← has_request_id-Permᴰ r.id h.requests)
      (elim (Bool-cases (ltb 45 (chars r.ip_address))) [
        | inl long ↦ rw long (same _)
        | inr fits ↦ elim (Bool-cases (has_request_id r.id t.incoming_requests)) [
          | inl taken ↦ rw (fits, taken) (same _)
          | inr fresh ↦ elim (Bool-cases (has_id r.url_id t.urls)) [
            | inl known ↦
                rw (fits, fresh, known)
                  (record { result = refl; urls = h.urls; requests = Permᴰ.cons refl h.requests })
            | inr unknown ↦ rw (fits, fresh, unknown) (same _)
          ]
        ]
      ])

execute-Alike : (c : Command) (t t' : Tables) → SameRows t t' → Alike (execute c t) (execute c t')
unfolding execute
execute-Alike (insert_url u) t t' h = insert_url-Alike u t t' h
execute-Alike (update_last_used at id) t t' h = record {
  result = ap ok (length-keep-Permᴰ (λ u. u.id == id) h.urls);
  urls = Permᴰ-map (touch at id) h.urls;
  requests = h.requests;
}
execute-Alike (delete_unused at cutoff) t t' h = record {
  result = ap ok (length-keep-Permᴰ (is_unused cutoff) h.urls);
  urls = Permᴰ-map (retire at cutoff) h.urls;
  requests = h.requests;
}
execute-Alike (insert_request r) t t' h = insert_request-Alike r t t' h

pub execute-result :
    (c : Command) (t t' : Tables) → SameRows t t' → (execute c t).0 ≡ (execute c t').0
execute-result c t t' h = (execute-Alike c t t' h).result

pub execute-SameRows :
    (c : Command) (t t' : Tables) → SameRows t t' → SameRows (execute c t).1 (execute c t').1
execute-SameRows c t t' h =
    let alike = execute-Alike c t t' h in
    record {
      urls = alike.urls;
      requests = alike.requests;
      consistent = execute-IsConsistent c t h.consistent;
    }
