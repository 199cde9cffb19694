-- ===== src/Service/Unordered.antt =====
-- The service and the cleanup do not see the order of the rows.
use mathlib.Core.Quot
use production_ready_url_sho.Common.{ℕ, String, ◌≡◌, ◌∙◌, sym, ap, List}
use production_ready_url_sho.Context.{Ctx}
use production_ready_url_sho.Model.{Stamp}
use production_ready_url_sho.Sql.Unordered.{SameRows}
use production_ready_url_sho.Dbtx.{Router}
use production_ready_url_sho.Repository.{new_url_repository, new_request_repository}
use production_ready_url_sho.Repository.Postgres.{RouterLaws}
use production_ready_url_sho.Repository.Unordered.{
  Contents, contents_urls, contents_requests, stored_in, new_url_repository-unordered,
  new_request_repository-unordered,
}
use production_ready_url_sho.Service.{shorten_url, redirect}
use production_ready_url_sho.Service.Refinement.{Agree, shorten_url-Agree, redirect-Agree}

module _ {S A : Type 0} (view : S → Contents) (Inv : S → Type 0)
    (spec : Contents → A × Contents) where
  -- Two runs that agree with one specification, from states with the same contents.
  same_run :
      (x y : A × S) (s s' : S)
      → view s ≡ view s'
      → Agree view Inv x (spec (view s))
      → Agree view Inv y (spec (view s'))
      → (x.0 ≡ y.0) × (view x.1 ≡ view y.1)
  same_run x y s s' same h k = (
    h.result ∙ ap (λ q. (spec q).0) same ∙ sym k.result,
    h.after ∙ ap (λ q. (spec q).1) same ∙ sym k.after,
  )

module _ {S : Type 0} (router : Router S) (laws : RouterLaws router)
    (sum256 : String → List ℕ) where
  -- Take two states of a database that does not fail, whose tables hold the same rows in any two
  -- orders, with no identifier and no live short key twice. `ShortenURL` returns the same from both,
  -- and leaves the same contents; and `Redirect` of any key then returns the same from both, too.
  pub rows_in_any_order :
      (ctx ctx' : Ctx) (st log_st : Stamp) (original agent key : String) (s s' : S)
      → laws.IsCalm s
      → laws.IsCalm s'
      → SameRows (laws.tables s) (laws.tables s')
      → let urls = new_url_repository router in
        let requests = new_request_repository router in
        let x = shorten_url sum256 urls requests ctx st log_st original agent s in
        let y = shorten_url sum256 urls requests ctx st log_st original agent s' in
        (x.0 ≡ y.0)
        × (stored_in router laws x.1 ≡ stored_in router laws y.1)
        × ((redirect urls ctx' key x.1).0 ≡ (redirect urls ctx' key y.1).0)
  rows_in_any_order ctx ctx' st log_st original agent key s s' calm calm' rows =
      let urls = new_url_repository-unordered router laws in
      let view = stored_in router laws in
      let run =
        shorten_url-Agree view laws.IsCalm sum256 urls
          (new_request_repository-unordered router laws) ctx st log_st original agent in
      let x = run s calm in
      let y = run s' calm' in
      let (result, after) =
        same_run view laws.IsCalm
          (shorten_url sum256 contents_urls contents_requests ctx st log_st original agent) _ _ s s'
          (Quot.sound rows) x y in
      let go = redirect-Agree view laws.IsCalm urls ctx' key in
      let (target, _) =
        same_run view laws.IsCalm (redirect contents_urls ctx' key) _ _ _ _ after (go _ x.keeps)
          (go _ y.keeps) in
      (result, after, target)
