-- ===== src/Cleanup.antt =====
-- internal/service/cleanup_service_impl.go: the job that retires unused URLs.
pub mod Exactness
pub mod Fresh
pub mod Racing
use production_ready_url_sho.Common.{ℕ, suc, ◌+◌, ◌-◌, ℤ, pos, negsuc, Option}
use production_ready_url_sho.Failure.{GoError, error_of}
use production_ready_url_sho.Context.{Ctx}
use production_ready_url_sho.Repository.{UrlRepository}

-- `time.Now().Add(-threshold)`. A time before Go's zero time is taken as the zero time: no stored
-- time is before it, so the comparison `last_used_at < cutoff` is the same.
unfoldable pub cutoff_time : ℕ → ℤ → ℕ
cutoff_time now (pos threshold) = now - threshold
cutoff_time now (negsuc n) = now + suc n

-- `now` is read by the service, `later` by the repository.
unfoldable pub run_cleanup :
    {S : Type 0}
    → UrlRepository S
    → (threshold : ℤ) → Ctx
    → (now later : ℕ) → S
    → Option GoError × S
run_cleanup urls threshold ctx now later s =
    let (r, s') = urls.delete_unused_since ctx later (cutoff_time now threshold) s in
    (error_of r, s')
