-- ===== src/Process/Threads/Ending.antt =====
-- `run` does end.
use production_ready_url_sho.Common.{
  ℕ, ◌+◌, ◌≤◌, ◌<◌, ◌≡◌, refl, ap, Bool, true, false, Option, none, some, ◌⊎◌, inl, inr, Bool-cases,
  arith,
}
use production_ready_url_sho.Failure.{GoError}
use production_ready_url_sho.Process.Threads.{
  Server, listening, sending, closing, gone, Main, selecting, stopping_server, stopping_tracer,
  stopping_debug, returned, Threads, started, Event, signal, crash, Step, returns_closed, sends,
  closes, receives, receives_nil, sees_signal, stops_server, stops_tracer, stops_debug, Runs, start,
  then_step, then_event,
}
use production_ready_url_sho.Process.Threads.Coding.{
  Crashed, Held, Channel, Sane, Sane-Runs, started-Sane,
}

-- What is left to do.
abbrev server_rank : Server → ℕ
server_rank listening = 3
server_rank (sending e) = 2
server_rank closing = 1
server_rank gone = 0

abbrev main_rank : Main → ℕ
main_rank selecting = 4
main_rank (stopping_server c) = 3
main_rank (stopping_tracer c) = 2
main_rank (stopping_debug c) = 1
main_rank (returned c) = 0

abbrev signal_rank : Bool → ℕ
signal_rank false = 1
signal_rank true = 0

abbrev rank : Threads → ℕ
rank t = server_rank t.server + main_rank t.main + signal_rank t.signaled

rank-Step : (t u : Threads) → Step t u → rank u < rank t
rank-Step t u (returns_closed s m) = ground (arith, ap server_rank s)
rank-Step t u (sends e s i) = ground (arith, ap server_rank s)
rank-Step t u (closes s) = ground (arith, ap server_rank s)
rank-Step t u (receives e m i) = ground (arith, ap main_rank m)
rank-Step t u (receives_nil m i c) = ground (arith, ap main_rank m)
rank-Step t u (sees_signal m s) = ground (arith, ap main_rank m)
rank-Step t u (stops_server c m) = ground (arith, ap main_rank m)
rank-Step t u (stops_tracer c m) = ground (arith, ap main_rank m)
rank-Step t u (stops_debug c m) = ground (arith, ap main_rank m)

rank-Event : (t u : Threads) → Event t u → rank u < rank t
rank-Event t u (signal s) = ground (arith, ap signal_rank s)
rank-Event t u (crash e s) = ground (arith, ap server_rank s)

rank-Runs : (t u : Threads) (n : ℕ) → Runs t n u → n + rank u ≤ rank t
rank-Runs t u n start = omega arith
rank-Runs t u n (then_step {n = m} {u = v} r s) = omega (arith, rank-Runs t v m r, rank-Step v u s)
rank-Runs t u n (then_event {n = m} {u = v} r s) =
    omega (arith, rank-Runs t v m r, rank-Event v u s)

-- What `run` can wait for: nothing happened yet.
abbrev pub Waits : Threads → Type 0
Waits t = (t.main ≡ selecting) × (t.server ≡ listening) × (t.signaled ≡ false)

-- A next step.
abbrev pub Moves : Threads → Type 0
Moves t = (u : Threads) × Step t u

-- `run` is over.
abbrev pub Ended : Threads → Type 0
Ended t = (c : ℕ) × (t.main ≡ returned c)

channel_error :
    (P : Type 0) (item : Option GoError) → Held P selecting item → (e : GoError) × (item ≡ some e)
channel_error P none h = cc
channel_error P (some e) h = (e, refl)

selecting-Moves :
    (P : Type 0) (t : Threads) (s : Server)
    → t.main ≡ selecting
    → t.server ≡ s
    → Sane P t
    → Moves t ⊎ Waits t
selecting-Moves P t listening m s h = elim (Bool-cases t.signaled) [
  | inl now ↦ inl (record t { main = stopping_server 0 }, sees_signal m now)
  | inr not_yet ↦ inr (m, s, not_yet)
]
selecting-Moves P t (sending e) m s h =
    let c : Channel P (sending e) t.main t.item t.closed = rw s at h.channel in
    inl (record t { server = closing; item = some e }, sends e s c.0)
selecting-Moves P t closing m s h = inl (record t { server = gone; closed = true }, closes s)
selecting-Moves P t gone m s h =
    let held : Held P selecting t.item = rw (s, m) at h.channel in
    let (e, i) = channel_error P t.item held in
    inl (record t { main = stopping_server 1; item = none }, receives e m i)

next_or_rest :
    (P : Type 0) (t : Threads) (m : Main) → t.main ≡ m → Sane P t → Moves t ⊎ (Ended t ⊎ Waits t)
next_or_rest P t selecting m h = elim (selecting-Moves P t t.server m refl h) [
  | inl moves ↦ inl moves
  | inr waits ↦ inr (inr waits)
]
next_or_rest P t (stopping_server c) m h =
    inl (record t { main = stopping_tracer c }, stops_server c m)
next_or_rest P t (stopping_tracer c) m h =
    inl (record t { main = stopping_debug c }, stops_tracer c m)
next_or_rest P t (stopping_debug c) m h = inl (record t { main = returned c }, stops_debug c m)
next_or_rest P t (returned c) m h = inr (inl (c, m))

-- `run` ends: its threads take at most eight steps and events in all, and as long as it has not
-- returned, they can take a step, unless the server listens and no signal has come.
pub run_ends : (t : Threads) (n : ℕ) → Runs started n t → (n ≤ 8) × (Moves t ⊎ (Ended t ⊎ Waits t))
run_ends t n r = (
  omega (arith, rank-Runs started t n r),
  next_or_rest (Crashed r) t t.main refl (Sane-Runs started t n r started-Sane),
)
