-- ===== src/Agent/Session/Tests.antt =====
-- Runs of the agent's session and of its loop.
use gratis.Agent.Session.Turns.{command_at, panics}
use gratis.Agent.Dispatch.{handle_upsert_dns_record, handle, dispatch, Dispatcher}
use gratis.Host.{Env, ok}
use gratis.Text.{bytes}
use gratis.Proto.{upsert_dns_record, command, restart_service, Command}
use gratis.Agent.Metrics.{CpuSample, Floats}
use gratis.Agent.Session.Loop.{Event, receives, session-ok_iff, runs, cancelled, Cancelled, session}
use gratis.Base.{refl, true, ◌↔◌, false, some, none, ℕ, ◌≡◌, List, ◌∷◌, []}

-- Numbers that only count.
abbrev counts : Floats
counts = record {
  Float = ℕ;
  of_uint = λ n. n;
  divide = λ a b. a;
  times = λ a b. a;
  parse_float = λ s. 0;
}

abbrev no_cpu : CpuSample
no_cpu = record { idle = 0; total = 0 }

abbrev restart : Command
restart = record {
  command_id = bytes "c1";
  payload = restart_service (record { service = bytes "nginx" });
}

abbrev quiet : Env
quiet t c = record { text = []; number = 200; failure = none }

abbrev bare : Dispatcher
bare = record { db = false; dns = none; email = false }

abbrev with_dns : Dispatcher
with_dns = record {
  db = false;
  dns = some (record { base_url = bytes "http://ns"; api_key = bytes "k" });
  email = false;
}

abbrev no_record : Command
no_record = record {
  command_id = bytes "c2";
  payload = upsert_dns_record (record { zone = bytes "a.org"; dns_record = none });
}

-- A command, and then the end of the program.
abbrev events : List (Event counts)
events = receives (command restart) ∷ cancelled ∷ []

session-ok_iff_example :
    ((session {fl = counts} (λ s. s) bare [] no_cpu events).returned ≡ some (ok tt))
    ↔ Cancelled {fl = counts} (λ s. s) bare [] no_cpu events
session-ok_iff_example = session-ok_iff {fl = counts} (λ s. s) bare [] no_cpu events

-- The same goroutine comes to Dispatch before the end, with an upsert of no record and a DNS client.
abbrev fatal : List (Event counts)
fatal =
    receives (command no_record)
    ∷ runs (record { number = 0; env = quiet; calls = [] })
    ∷ cancelled
    ∷ []

session_panic :
    ((session {fl = counts} (λ s. s) with_dns [] no_cpu fatal).panicked ≡ true)
    × ((session {fl = counts} (λ s. s) bare [] no_cpu fatal).returned ≡ some (ok tt))
unfolding session panics command_at dispatch handle handle_upsert_dns_record
session_panic = (refl, refl)
