-- ===== src/Model.antt =====
-- internal/model: what the program stores. Times are nanoseconds since Go's zero `time.Time`, so
-- that the zero value is 0; a UUID is its canonical text. What `time.Now` and `uuid.New` return at
-- one call of `NewBase` is a `Stamp`.
use production_ready_url_sho.Common.{ℕ, String, Bool, true, false, Option, none}

pub record Stamp : Type 0 where
  pub now : ℕ
  pub uuid : String

pub record Base : Type 0 where
  pub id : String
  pub created_at : ℕ
  pub updated_at : ℕ
  pub deleted_at : Option ℕ

unfoldable pub new_base : Stamp → Base
new_base st = record { id = st.uuid; created_at = st.now; updated_at = st.now; deleted_at = none }

abbrev pub zero_time : ℕ
zero_time = 0

pub record Url : Type 0 where
  pub base : Base
  pub open base use *
  pub url : String
  pub short_key : String
  pub last_used_at : ℕ
  pub is_active : Bool

-- `LastUsedAt` is not set, so it is the zero time.
unfoldable pub new_url : Stamp → String → String → Url
unfolding new_base
new_url st url key = record {
  base = new_base st;
  url = url;
  short_key = key;
  last_used_at = zero_time;
  is_active = true;
}

-- `var u model.URL`
abbrev pub zero_url : Url
zero_url = record {
  base = record { id = ""; created_at = zero_time; updated_at = zero_time; deleted_at = none };
  url = "";
  short_key = "";
  last_used_at = zero_time;
  is_active = false;
}

pub record IncomingRequest : Type 0 where
  pub base : Base
  pub open base use *
  pub url_id : String
  pub ip_address : String
  pub user_agent : String
