-- ===== src/Context/Budgets.antt =====
-- What deriving a context keeps and what it changes.
use production_ready_url_sho.Common.{ℕ, ◌≤◌, String, Bool, ◌≡◌, Option, none, some, arith}
use production_ready_url_sho.Context.{
  Ctx, with_timeout, with_client_ip, get_client_ip, with_circuit_open, is_circuit_open,
}

-- A budget within a bound.
abbrev pub Within : ℕ → Option ℕ → Type 0
Within d none = ⊥
Within d (some b) = b ≤ d

-- Whatever limit is added, the budget stays within the new limit and within every old one, and
-- the values under the keys stay.
pub with_timeout_lem :
    (ctx : Ctx) (d : ℕ)
    → Within d (with_timeout ctx d).budget
      × ((b : ℕ) → ctx.budget ≡ some b → Within b (with_timeout ctx d).budget)
      × (get_client_ip (with_timeout ctx d) ≡ get_client_ip ctx)
      × (is_circuit_open (with_timeout ctx d) ≡ is_circuit_open ctx)
unfolding with_timeout get_client_ip is_circuit_open
with_timeout_lem ctx d = (ground arith, λ b h. ground arith, ground arith, ground arith)

-- The two keys do not interfere: each value is read back whatever is stored under the other, and
-- what is read under a key that was not written is the old value.
pub keys_independent :
    (ctx : Ctx) (ip : String) (b : Bool)
    → (get_client_ip (with_circuit_open (with_client_ip ctx ip) b) ≡ ip)
      × (is_circuit_open (with_client_ip (with_circuit_open ctx b) ip) ≡ b)
      × (get_client_ip (with_circuit_open ctx b) ≡ get_client_ip ctx)
      × (is_circuit_open (with_client_ip ctx ip) ≡ is_circuit_open ctx)
unfolding with_client_ip get_client_ip with_circuit_open is_circuit_open
keys_independent ctx ip b = (ground arith, ground arith, ground arith, ground arith)
