-- ===== src/Platform/RedisClient.antt =====
-- internal/platform/redisclient/client.go: `NewClient`. go-redis and redisotel are the parameter
-- `GoRedis`; a client is a number.
pub mod Closing
use production_ready_url_sho.Common.{ℕ, ◌*◌, String, Option, none, some}
use production_ready_url_sho.Failure.{GoError, wrapped, Result, ok, err}
use production_ready_url_sho.Context.{Ctx, second}

-- `target` stands for what the URL says of the server.
pub record Options : Type 0 where
  pub target : String
  pub pool_size : ℕ
  pub min_idle_conns : ℕ
  pub conn_max_idle_time : ℕ

pub record GoRedis (S : Type 0) : Type 0 where
  pub parse_url : String → Result Options
  pub new_client : Options → S → ℕ × S
  pub instrument_tracing : ℕ → S → Option GoError × S
  pub ping : Ctx → ℕ → S → Option GoError × S
  pub close : ℕ → S → S

abbrev pub tuned : Options → Options
tuned opt = record opt { pool_size = 20; min_idle_conns = 5; conn_max_idle_time = 30 * 60 * second }

module _ {S : Type 0} (redis : GoRedis S) (ctx : Ctx) where
  unfoldable pub pinged : ℕ → Option GoError × S → Result ℕ × S
  pinged client (none, s) = (ok client, s)
  pinged client (some e, s) = (err e, redis.close client s)

  unfoldable pub instrumented : ℕ → Option GoError × S → Result ℕ × S
  unfolding pinged
  instrumented client (none, s) = pinged client (redis.ping ctx client s)
  instrumented client (some e, s) = (err (wrapped "redisotel instrument" e), redis.close client s)

  unfoldable pub parsed : Result Options → S → Result ℕ × S
  unfolding instrumented
  parsed (err e) s = (err e, s)
  parsed (ok opt) s =
      let (client, s') = redis.new_client (tuned opt) s in
      instrumented client (redis.instrument_tracing client s')

  unfoldable pub new_client : String → S → Result ℕ × S
  unfolding parsed
  new_client url s = parsed (redis.parse_url url) s
