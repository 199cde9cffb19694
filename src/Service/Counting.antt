-- ===== src/Service/Counting.antt =====
-- The repositories of the service, wrapped so that they count their calls.
use production_ready_url_sho.Common.{ℕ, suc, refl}
use production_ready_url_sho.Repository.{UrlRepository, RequestRepository}
use production_ready_url_sho.Repository.Calm.{Simulates, UrlRefines, RequestRefines}

pub record Calls : Type 0 where
  pub lookups : ℕ
  pub creates : ℕ
  pub logs : ℕ

abbrev pub no_calls : Calls
no_calls = record { lookups = 0; creates = 0; logs = 0 }

-- Run a call on the state behind the counters.
abbrev pub behind : {S A : Type 0} → (Calls → Calls) → (S → A × S) → Calls × S → A × (Calls × S)
behind add f (c, s) = let (a, s') = f s in (a, (add c, s'))

abbrev pub count_lookup : Calls → Calls
count_lookup c = record c { lookups = suc c.lookups }

abbrev pub count_create : Calls → Calls
count_create c = record c { creates = suc c.creates }

abbrev pub count_log : Calls → Calls
count_log c = record c { logs = suc c.logs }

abbrev pub counting_urls : {S : Type 0} → UrlRepository S → UrlRepository (Calls × S)
counting_urls urls = record {
  create = λ ctx u. behind count_create (urls.create ctx u);
  get_by_short_key = λ ctx key. behind count_lookup (urls.get_by_short_key ctx key);
  update_last_used = λ ctx now id. behind (λ c. c) (urls.update_last_used ctx now id);
  delete_unused_since = λ ctx now cutoff. behind (λ c. c) (urls.delete_unused_since ctx now cutoff);
}

abbrev pub counting_requests : {S : Type 0} → RequestRepository S → RequestRepository (Calls × S)
counting_requests requests = record {
  log_create_request =
      λ ctx st id agent. behind count_log (requests.log_create_request ctx st id agent);
}

-- A call that is counted does what the call does.
same_behind :
    {S A : Type 0} (add : Calls → Calls) (f : S → A × S)
    → Simulates (λ (x : Calls × S). x.1) (λ x. Unit {0}) (behind add f) f
same_behind add f = record { result = λ x h. refl; after = λ x h. refl; keeps = λ x h. tt }

pub counting_urls-refines :
    {S : Type 0} (urls : UrlRepository S)
    → UrlRefines (λ (x : Calls × S). x.1) (λ x. Unit {0}) (counting_urls urls) urls
counting_urls-refines urls = record {
  create = λ ctx u. same_behind count_create (urls.create ctx u);
  get = λ ctx key. same_behind count_lookup (urls.get_by_short_key ctx key);
  update = λ ctx now id. same_behind (λ c. c) (urls.update_last_used ctx now id);
  delete = λ ctx now cutoff. same_behind (λ c. c) (urls.delete_unused_since ctx now cutoff);
}

pub counting_requests-refines :
    {S : Type 0} (requests : RequestRepository S)
    → RequestRefines (λ (x : Calls × S). x.1) (λ x. Unit {0}) (counting_requests requests) requests
counting_requests-refines requests = record {
  log = λ ctx st id agent. same_behind count_log (requests.log_create_request ctx st id agent);
}
