-- ===== src/Process/Threads.antt =====
-- cmd/api/main.go: the goroutine of the API server, the channel `serverErr`, and the `select` of
-- `run` with the shutdown after it, as the steps that they take in any order. The cron and the debug
-- server do not touch these.
pub mod Coding
pub mod Ending
use production_ready_url_sho.Common.{ℕ, suc, ◌≡◌, Bool, true, false, Option, none, some}
use production_ready_url_sho.Failure.{GoError}

-- Where the server's goroutine stands: in `ListenAndServe`, before the send, before the `close`, or
-- at its end.
pub data Server : Type 0 where
  listening : Server
  sending : GoError → Server
  closing gone : Server

-- Where `run` stands, with the exit code from the `select` on.
pub data Main : Type 0 where
  selecting : Main
  stopping_server stopping_tracer stopping_debug returned : ℕ → Main

-- `item` is the buffer of the channel, whose capacity is one.
pub record Threads : Type 0 where
  pub server : Server
  pub item : Option GoError
  pub closed : Bool
  pub signaled : Bool
  pub main : Main

abbrev pub started : Threads
started = record {
  server = listening;
  item = none;
  closed = false;
  signaled = false;
  main = selecting;
}

-- Whether `srv.Shutdown` was called.
abbrev pub shut : Main → Bool
shut selecting = false
shut (stopping_server c) = true
shut (stopping_tracer c) = true
shut (stopping_debug c) = true
shut (returned c) = true

-- What comes from outside: a signal, or an error of `ListenAndServe`.
pub data Event (t : Threads) : Threads → Type 0 where
  signal : t.signaled ≡ false → Event t (record t { signaled = true })
  crash : (e : GoError) → t.server ≡ listening → Event t (record t { server = sending e })

pub data Step (t : Threads) : Threads → Type 0 where
  -- After `Shutdown`, `ListenAndServe` returns `ErrServerClosed`.
  returns_closed :
      t.server ≡ listening → shut t.main ≡ true → Step t (record t { server = closing })
  sends :
      (e : GoError)
      → t.server ≡ sending e
      → t.item ≡ none
      → Step t (record t { server = closing; item = some e })
  closes : t.server ≡ closing → Step t (record t { server = gone; closed = true })
  -- The three ways out of the `select`: an error, the closed channel, the signal.
  receives :
      (e : GoError)
      → t.main ≡ selecting
      → t.item ≡ some e
      → Step t (record t { main = stopping_server 1; item = none })
  receives_nil :
      t.main ≡ selecting
      → t.item ≡ none
      → t.closed ≡ true
      → Step t (record t { main = stopping_server 0 })
  sees_signal :
      t.main ≡ selecting → t.signaled ≡ true → Step t (record t { main = stopping_server 0 })
  -- The shutdowns return within their time limit, with an error or not.
  stops_server :
      (c : ℕ) → t.main ≡ stopping_server c → Step t (record t { main = stopping_tracer c })
  stops_tracer :
      (c : ℕ) → t.main ≡ stopping_tracer c → Step t (record t { main = stopping_debug c })
  stops_debug : (c : ℕ) → t.main ≡ stopping_debug c → Step t (record t { main = returned c })

-- Executions, with the number of their steps and events.
pub data Runs (t : Threads) : ℕ → Threads → Type 0 where
  start : Runs t 0 t
  then_step : {n : ℕ} {u v : Threads} → Runs t n u → Step u v → Runs t (suc n) v
  then_event : {n : ℕ} {u v : Threads} → Runs t n u → Event u v → Runs t (suc n) v
