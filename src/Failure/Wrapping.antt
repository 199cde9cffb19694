-- ===== src/Failure/Wrapping.antt =====
-- The innermost error, which `errors.Is` and `errors.As` look for.
use production_ready_url_sho.Common.{◌≡◌, refl, true, arith}
use production_ready_url_sho.Failure.{
  Sentinel, GoError, sentinel, pg_error, other, wrapped, is, as_pg, tag,
}

unfoldable pub root : GoError → GoError
root (wrapped m e) = root e
root (sentinel s) = sentinel s
root (pg_error s) = pg_error s
root (other m) = other m

pub is-root : (e : GoError) (t : Sentinel) → is e t ≡ is (root e) t
unfolding is root
is-root (wrapped m e) t = is-root e t
is-root (sentinel s) t = refl
is-root (pg_error s) t = refl
is-root (other m) t = refl

pub as_pg-root : (e : GoError) → as_pg e ≡ as_pg (root e)
unfolding as_pg root
as_pg-root (wrapped m e) = as_pg-root e
as_pg-root (sentinel s) = refl
as_pg-root (pg_error s) = refl
as_pg-root (other m) = refl

-- An error is one sentinel at most.
pub is_exclusive : (e : GoError) (s t : Sentinel) → is e s ≡ true → is e t ≡ true → tag s ≡ tag t
unfolding is
is_exclusive (wrapped m e) s t h k = is_exclusive e s t h k
is_exclusive (sentinel u) s t h k = ground arith
is_exclusive (pg_error u) s t h k = cc
is_exclusive (other m) s t h k = cc
