-- ===== src/Repository/Deadlines.antt =====
-- The deadlines of the statements: a router, wrapped so that it writes down the context of every call.
use production_ready_url_sho.Common.{ℕ, refl, List, [], ◌∷◌, All}
use production_ready_url_sho.Context.{Ctx}
use production_ready_url_sho.Context.Budgets.{Within, with_timeout_lem}
use production_ready_url_sho.Dbtx.{Dbtx, Router}
use production_ready_url_sho.Database.{query_row}
use production_ready_url_sho.Repository.{
  db_call_timeout, new_url_repository, new_request_repository,
}
use production_ready_url_sho.Repository.Calm.{UrlRefines, RequestRefines}

-- A state, and the contexts of the calls so far, the last first.
pub record Recorded (S : Type 0) : Type 0 where
  pub calls : List Ctx
  pub inner : S

abbrev pub fresh_record : {S : Type 0} → S → Recorded S
fresh_record s = record { calls = []; inner = s }

abbrev pub plain : {S : Type 0} → Recorded S → S
plain x = x.inner

abbrev write_down : {S A : Type 0} → Ctx → (S → A × S) → Recorded S → A × Recorded S
write_down ctx f x = let (a, s) = f x.inner in (a, record { calls = ctx ∷ x.calls; inner = s })

abbrev pub recorded_dbtx : {S : Type 0} → Dbtx S → Dbtx (Recorded S)
recorded_dbtx db = record {
  exec = λ ctx cmd. write_down ctx (db.exec ctx cmd);
  query = λ ctx q. write_down ctx (db.query ctx q);
}

abbrev pub recorded : {S : Type 0} → Router S → Router (Recorded S)
recorded router = record {
  reader = λ x.
      let (side, s) = router.reader x.inner in
      (recorded_dbtx side, record { calls = x.calls; inner = s });
  writer = recorded_dbtx router.writer;
}

-- All calls so far had a deadline, at most `limit` away when they were made.
abbrev pub InTime : {S : Type 0} → (limit : ℕ) → Recorded S → Type 0
InTime limit x = All (λ c. Within limit c.budget) x.calls

module _ {S : Type 0} (router : Router S) where
  pub recorded_urls-refines :
      UrlRefines plain
        (InTime db_call_timeout)
        (new_url_repository (recorded router))
        (new_url_repository router)
  unfolding new_url_repository query_row
  recorded_urls-refines =
      let in_time = λ (ctx : Ctx). (with_timeout_lem ctx db_call_timeout).0 in
      record {
        create = λ ctx u. record {
          result = λ x h. refl;
          after = λ x h. refl;
          keeps = λ x h. (in_time ctx, h);
        };
        get = λ ctx key. record {
          result = λ x h. refl;
          after = λ x h. refl;
          keeps = λ x h. (in_time ctx, h);
        };
        update = λ ctx now id. record {
          result = λ x h. refl;
          after = λ x h. refl;
          keeps = λ x h. (in_time ctx, h);
        };
        delete = λ ctx now cutoff. record {
          result = λ x h. refl;
          after = λ x h. refl;
          keeps = λ x h. (in_time ctx, h);
        };
      }

  pub recorded_requests-refines :
      RequestRefines plain
        (InTime db_call_timeout)
        (new_request_repository (recorded router))
        (new_request_repository router)
  unfolding new_request_repository
  recorded_requests-refines = record {
    log = λ ctx st id agent. record {
      result = λ x h. refl;
      after = λ x h. refl;
      keeps = λ x h. ((with_timeout_lem ctx db_call_timeout).0, h);
    };
  }
