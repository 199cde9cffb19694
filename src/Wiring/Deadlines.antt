-- ===== src/Wiring/Deadlines.antt =====
-- No statement that the services send is without a deadline.
use production_ready_url_sho.Common.{ℕ, ◌≡◌, refl, ap, String, List, ℤ, ◌*◌, arith}
use production_ready_url_sho.Failure.{error_of}
use production_ready_url_sho.Context.{Ctx, second, with_timeout}
use production_ready_url_sho.Model.{Stamp}
use production_ready_url_sho.Dbtx.{Router}
use production_ready_url_sho.Repository.{
  UrlRepository, RequestRepository, db_call_timeout, new_url_repository, new_request_repository,
}
use production_ready_url_sho.Repository.Deadlines.{
  Recorded, fresh_record, plain, recorded, InTime, recorded_urls-refines, recorded_requests-refines,
}
use production_ready_url_sho.Service.{shorten_url, redirect, touch_last_used}
use production_ready_url_sho.Service.Refinement.{Agree, shorten_url-Agree, redirect-Agree}
use production_ready_url_sho.Cleanup.{cutoff_time, run_cleanup}

-- A run in which every call has its deadline, and which is otherwise the run that is not recorded.
pub record Timed {S A : Type 0} (limit : ℕ) (x : A × Recorded S) (y : A × S) : Type 0 where
  pub in_time : InTime limit x.1
  pub result : x.0 ≡ y.0
  pub state : plain x.1 ≡ y.1

module _ {S : Type 0} (router : Router S) where
  abbrev pub recorded_urls : UrlRepository (Recorded S)
  recorded_urls = new_url_repository (recorded router)

  abbrev pub recorded_requests : RequestRepository (Recorded S)
  recorded_requests = new_request_repository (recorded router)

  Timed-Agree :
      {A : Type 0} {x : A × Recorded S} {y : A × S}
      → Agree plain (InTime db_call_timeout) x y
      → Timed db_call_timeout x y
  Timed-Agree h = record { in_time = h.keeps; result = h.result; state = h.after }

  -- On any router, whatever its calls answer, and whether or not the caller's own context has a
  -- deadline: every statement that `ShortenURL`, `Redirect` and `RunCleanup` send has a deadline at
  -- most five seconds away, and the statement of the goroutine of `Redirect` one at most two seconds
  -- away. To write the contexts down changes neither the results nor the states.
  pub statements_expire :
      (sum256 : String → List ℕ) (ctx : Ctx) (st log_st : Stamp) (original agent key id : String)
      (threshold : ℤ) (now later : ℕ) (s : S)
      → let urls = new_url_repository router in
        let requests = new_request_repository router in
        let start = fresh_record s in
        Timed
          (5 * second)
          (shorten_url sum256 recorded_urls recorded_requests ctx st log_st original agent start)
          (shorten_url sum256 urls requests ctx st log_st original agent s)
        × Timed (5 * second) (redirect recorded_urls ctx key start) (redirect urls ctx key s)
        × Timed
            (5 * second)
            (run_cleanup recorded_urls threshold ctx now later start)
            (run_cleanup urls threshold ctx now later s)
        × InTime (2 * second) (touch_last_used recorded_urls now id start)
        × (plain (touch_last_used recorded_urls now id start) ≡ touch_last_used urls now id s)
  unfolding run_cleanup touch_last_used new_url_repository with_timeout
  statements_expire sum256 ctx st log_st original agent key id threshold now later s =
      let start = fresh_record s in
      let urls = recorded_urls-refines router in
      let swept = urls.delete ctx later (cutoff_time now threshold) in
      (
        Timed-Agree (
            shorten_url-Agree plain (InTime db_call_timeout) sum256 urls
              (recorded_requests-refines router) ctx st log_st original agent start tt),
        Timed-Agree (redirect-Agree plain (InTime db_call_timeout) urls ctx key start tt),
        record {
          in_time = swept.keeps start tt;
          result = ap error_of (swept.result start tt);
          state = swept.after start tt;
        },
        (omega arith, tt),
        refl,
      )
