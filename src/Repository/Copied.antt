-- ===== src/Repository/Copied.antt =====
-- The repositories on two copies of the tables: writes reach the primary, and lookups read the
-- replica, which may lag behind.
use production_ready_url_sho.Sql.{Tables}
use production_ready_url_sho.Repository.{UrlRepository, RequestRepository}
use production_ready_url_sho.Repository.Calm.{table_urls, table_requests}

pub record Copies : Type 0 where
  pub primary : Tables
  pub replica : Tables

-- An operation on the primary.
abbrev pub on_primary_copy : {A : Type 0} → (Tables → A × Tables) → Copies → A × Copies
on_primary_copy f c = let (a, t) = f c.primary in (a, record c { primary = t })

-- A lookup on the replica.
abbrev pub on_replica_copy : {A : Type 0} → (Tables → A × Tables) → Copies → A × Copies
on_replica_copy f c = ((f c.replica).0, c)

abbrev pub copy_urls : UrlRepository Copies
copy_urls = record {
  create = λ ctx u. on_primary_copy (table_urls.create ctx u);
  get_by_short_key = λ ctx key. on_replica_copy (table_urls.get_by_short_key ctx key);
  update_last_used = λ ctx now id. on_primary_copy (table_urls.update_last_used ctx now id);
  delete_unused_since =
      λ ctx now cutoff. on_primary_copy (table_urls.delete_unused_since ctx now cutoff);
}

abbrev pub copy_requests : RequestRepository Copies
copy_requests = record {
  log_create_request =
      λ ctx st id agent. on_primary_copy (table_requests.log_create_request ctx st id agent);
}

-- The replica catches up with the primary.
abbrev pub caught_up : Copies → Copies
caught_up c = record c { replica = c.primary }
