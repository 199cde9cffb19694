-- ===== src/Process/Threads/Coding.antt =====
-- What the channel holds, and what the exit code says, in every run.
use production_ready_url_sho.Common.{
  ℕ, zero, suc, ◌≡◌, refl, ap, Bool, true, false, Option, none, some, ◌⊎◌, inl, inr,
}
use production_ready_url_sho.Failure.{GoError}
use production_ready_url_sho.Process.Threads.{
  Server, listening, sending, closing, gone, Main, selecting, stopping_server, stopping_tracer,
  stopping_debug, returned, Threads, started, shut, signal, crash, Step, returns_closed, sends,
  closes, receives, receives_nil, sees_signal, stops_server, stops_tracer, stops_debug, Runs, start,
  then_step, then_event,
}

-- Whether a run has a crash of the server in it.
abbrev pub Crashed : {t u : Threads} {n : ℕ} → Runs t n u → Type 0
Crashed start = ⊥
Crashed (then_step r s) = Crashed r
Crashed (then_event r (signal s)) = Crashed r
Crashed (then_event r (crash e s)) = Unit

-- An exit code: 0 after a signal, 1 after a crash, which is `P`.
abbrev pub Coded : Type 0 → Bool → ℕ → Type 0
Coded P signaled zero = signaled ≡ true
Coded P signaled (suc c) = (c ≡ 0) × P

abbrev pub Exit : Type 0 → Bool → Main → Type 0
Exit P signaled selecting = Unit
Exit P signaled (stopping_server c) = Coded P signaled c
Exit P signaled (stopping_tracer c) = Coded P signaled c
Exit P signaled (stopping_debug c) = Coded P signaled c
Exit P signaled (returned c) = Coded P signaled c

-- An error is in the channel only after a crash; an empty one is seen past the send only when
-- `run` has left the `select`.
abbrev pub Held : Type 0 → Main → Option GoError → Type 0
Held P m none = shut m ≡ true
Held P m (some e) = P

abbrev pub Channel : Type 0 → Server → Main → Option GoError → Bool → Type 0
Channel P listening m item closed = (item ≡ none) × (closed ≡ false)
Channel P (sending e) m item closed = (item ≡ none) × (closed ≡ false) × P
Channel P closing m item closed = (closed ≡ false) × Held P m item
Channel P gone m item closed = Held P m item

pub record Sane (P : Type 0) (t : Threads) : Type 0 where
  pub channel : Channel P t.server t.main t.item t.closed
  pub exit : Exit P t.signaled t.main

-- `run` moves on: the channel's facts stay where it leaves the buffer alone.
Channel-main :
    (P : Type 0) (s : Server) (m m' : Main) (item : Option GoError) (closed : Bool)
    → shut m' ≡ true
    → Channel P s m item closed
    → Channel P s m' item closed
Channel-main P listening m m' item closed h c = c
Channel-main P (sending e) m m' item closed h c = c
Channel-main P closing m m' none closed h c = (c.0, h)
Channel-main P closing m m' (some e) closed h c = c
Channel-main P gone m m' none closed h c = h
Channel-main P gone m m' (some e) closed h c = c

Channel-received :
    (P : Type 0) (s : Server) (m m' : Main) (e : GoError) (closed : Bool)
    → shut m' ≡ true
    → Channel P s m (some e) closed
    → P × Channel P s m' none closed
Channel-received P listening m m' e closed h c = cc (c.0)
Channel-received P (sending x) m m' e closed h c = cc (c.0)
Channel-received P closing m m' e closed h c = (c.1, (c.0, h))
Channel-received P gone m m' e closed h c = (c, h)

-- The closed channel is empty only when `run` has left the `select`.
Channel-closed : (P : Type 0) (s : Server) (m : Main) → Channel P s m none true → shut m ≡ true
Channel-closed P listening m c = cc (c.1)
Channel-closed P (sending x) m c = cc (c.1)
Channel-closed P closing m c = cc
Channel-closed P gone m c = c

Sane-Step : (P : Type 0) (t u : Threads) → Step t u → Sane P t → Sane P u
Sane-Step P t u (returns_closed s m) h =
    let c : Channel P listening t.main t.item t.closed = rw s at h.channel in
    record { channel = (c.1, rw c.0 m); exit = h.exit }
Sane-Step P t u (sends e s i) h =
    let c : Channel P (sending e) t.main t.item t.closed = rw s at h.channel in
    record { channel = (c.1, c.2); exit = h.exit }
Sane-Step P t u (closes s) h =
    let c : Channel P closing t.main t.item t.closed = rw s at h.channel in
    record { channel = c.1; exit = h.exit }
Sane-Step P t u (receives e m i) h =
    let (p, c) =
      Channel-received P t.server t.main (stopping_server 1) e t.closed refl (rw i at h.channel) in
    record { channel = c; exit = (refl, p) }
Sane-Step P t u (receives_nil m i c) h =
    let left = Channel-closed P t.server t.main (rw (i, c) at h.channel) in cc (ap shut m, left)
Sane-Step P t u (sees_signal m s) h = record {
  channel = Channel-main P t.server t.main (stopping_server 0) t.item t.closed refl h.channel;
  exit = s;
}
Sane-Step P t u (stops_server c m) h = record {
  channel = Channel-main P t.server t.main (stopping_tracer c) t.item t.closed refl h.channel;
  exit = rw m at h.exit;
}
Sane-Step P t u (stops_tracer c m) h = record {
  channel = Channel-main P t.server t.main (stopping_debug c) t.item t.closed refl h.channel;
  exit = rw m at h.exit;
}
Sane-Step P t u (stops_debug c m) h = record {
  channel = Channel-main P t.server t.main (returned c) t.item t.closed refl h.channel;
  exit = rw m at h.exit;
}

Coded-crashed : (P : Type 0) (signaled : Bool) (c : ℕ) → Coded P signaled c → Coded Unit signaled c
Coded-crashed P signaled zero h = h
Coded-crashed P signaled (suc c) h = (h.0, tt)

Exit-crashed : (P : Type 0) (signaled : Bool) (m : Main) → Exit P signaled m → Exit Unit signaled m
Exit-crashed P signaled selecting h = tt
Exit-crashed P signaled (stopping_server c) h = Coded-crashed P signaled c h
Exit-crashed P signaled (stopping_tracer c) h = Coded-crashed P signaled c h
Exit-crashed P signaled (stopping_debug c) h = Coded-crashed P signaled c h
Exit-crashed P signaled (returned c) h = Coded-crashed P signaled c h

Coded-signaled : (P : Type 0) (signaled : Bool) (c : ℕ) → Coded P signaled c → Coded P true c
Coded-signaled P signaled zero h = refl
Coded-signaled P signaled (suc c) h = h

Exit-signaled : (P : Type 0) (signaled : Bool) (m : Main) → Exit P signaled m → Exit P true m
Exit-signaled P signaled selecting h = tt
Exit-signaled P signaled (stopping_server c) h = Coded-signaled P signaled c h
Exit-signaled P signaled (stopping_tracer c) h = Coded-signaled P signaled c h
Exit-signaled P signaled (stopping_debug c) h = Coded-signaled P signaled c h
Exit-signaled P signaled (returned c) h = Coded-signaled P signaled c h

pub Sane-Runs : (t u : Threads) (n : ℕ) (r : Runs t n u) → Sane ⊥ t → Sane (Crashed r) u
Sane-Runs t u n start h = h
Sane-Runs t u n (then_step {n = m} {u = v} r s) h =
    Sane-Step (Crashed r) v u s (Sane-Runs t v m r h)
Sane-Runs t u n (then_event {n = m} {u = v} r (signal s)) h =
    let before = Sane-Runs t v m r h in
    record {
      channel = before.channel;
      exit = Exit-signaled (Crashed r) v.signaled v.main before.exit;
    }
Sane-Runs t u n (then_event {n = m} {u = v} r (crash e s)) h =
    let before = Sane-Runs t v m r h in
    let c : Channel (Crashed r) listening v.main v.item v.closed = rw s at before.channel in
    record {
      channel = (c.0, c.1, tt);
      exit = Exit-crashed (Crashed r) v.signaled v.main before.exit;
    }

pub started-Sane : Sane ⊥ started
started-Sane = record { channel = (refl, refl); exit = tt }

-- Once the server is started, which is after every step of the start that can fail, the exit code
-- tells how the program ended: `run` returns 0 only if a signal came, 1 only if the server crashed,
-- and nothing else. In particular the `nil` of the closed channel never wins the `select`, and
-- without a signal a crash always gives 1.
pub exit_code :
    (t : Threads) (n c : ℕ) (r : Runs started n t)
    → t.main ≡ returned c
    → ((c ≡ 0) × (t.signaled ≡ true)) ⊎ ((c ≡ 1) × Crashed r)
exit_code t n zero r m =
    let done : Exit (Crashed r) t.signaled (returned zero) =
      rw m at (Sane-Runs started t n r started-Sane).exit in
    inl (refl, done)
exit_code t n (suc c) r m =
    let done : Exit (Crashed r) t.signaled (returned (suc c)) =
      rw m at (Sane-Runs started t n r started-Sane).exit in
    inr (ap suc done.0, done.1)
