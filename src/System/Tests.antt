-- ===== src/System/Tests.antt =====
-- A run of the whole system: an agent connects, and a command goes to it and is answered.
use gratis.System.Complete.{Reach-completes}
use gratis.System.Stuck.{Reach-IsStuck, IsStuck}
use gratis.System.Refine.{Reach-server}
use gratis.System.Links.{Distinct}
use gratis.System.Calls.{Reach-Answers}
use gratis.System.Drain.{Reach-drains}
use gratis.System.Order.{Reach-starts_in_order}
use gratis.Api.Server.Steps as Server
use gratis.Api.Server.Steps.{initial}
use gratis.Api.Server.Pending.{answered, delivered, started}
use gratis.Agent.Dispatch.Results.{refusal, dispatch-refuses}
use gratis.Host.{message, Env}
use gratis.Api.Server.{
  deliver, take_result, start_command, handle_agent_message, register_agent, ConnectedAgent,
}
use gratis.Agent.Dispatch.{Dispatcher}
use gratis.System.{
  ended, take_command, read_up, read_down, send_outbound, send_up, enqueue, fresh, serving,
  empty_link, update, issue, System, Issue, Link,
}
use gratis.System.Steps.{
  start, Answers, Reach, here, next, connects, starts, enqueues, moves, receives, sends, reads_down,
  takes, answers, reads_up,
}
use gratis.Proto.{delete_database, command_result, CommandResult, Command}
use gratis.Base.{
  nat_keys, zero, suc, ℕ, delete, ◌++◌, some, insert, ◌≡◌, List, lookup, refl, true, false, ap,
  none, ◌∷◌, [],
}
use gratis.Text.{str_eq, bytes, Str}

-- Nothing is read of metrics here.
abbrev N : Type 0
N = Unit {0}

abbrev same : Str → Str
same s = s

abbrev quiet : Env
quiet t c = record { text = []; number = 200; failure = none }

-- An agent with no manager at all.
abbrev bare : Dispatcher
bare = record { db = false; dns = none; email = false }

abbrev agent : ConnectedAgent N
agent = record {
  server_id = bytes "srv_1";
  hostname = bytes "host";
  last_metrics = none;
  last_seen = none;
}

abbrev drop_shop : Command
drop_shop = record {
  command_id = bytes "c1";
  payload = delete_database (record { db_name = bytes "shop"; db_user = bytes "shop" });
}

abbrev answer : CommandResult
answer = record {
  command_id = bytes "c1";
  success = false;
  error = message (refusal (drop_shop.payload));
}

drop_shop-Answers : Answers same drop_shop answer
drop_shop-Answers = record {
  dispatcher = bare;
  env = quiet;
  calls = [];
  answered = ap (λ x. x.0) (dispatch-refuses same bare quiet drop_shop [] refl);
}

abbrev call : Issue
call = record { conn = 7; command = drop_shop }

-- The session after each of its steps.
abbrev enqueued : Link N
enqueued = record (empty_link serving) { sent = drop_shop ∷ []; queue = drop_shop ∷ [] }

abbrev on_the_way : Link N
on_the_way = record enqueued { queue = []; down = drop_shop ∷ [] }

abbrev arrived : Link N
arrived = record enqueued { queue = []; inbox = drop_shop ∷ [] }

abbrev at_work : Link N
at_work = record (empty_link serving) {
  sent = drop_shop ∷ [];
  started = drop_shop ∷ [];
  running = drop_shop ∷ [];
}

abbrev on_the_way_back : Link N
on_the_way_back = record at_work { running = []; up = command_result answer ∷ [] }

abbrev back : Link N
back = record at_work { running = []; outbox = command_result answer ∷ [] }

abbrev handled : Link N
handled = record at_work { running = [] }

-- The system after the same steps.
abbrev connected : System N
connected = record (start {Float = N}) {
  server = register_agent 7 agent initial;
  links = update (λ conn. empty_link fresh) 7 (empty_link serving);
}

abbrev issued : System N
issued = issue 0 call (started (bytes "c1") 0 (register_agent 7 agent initial)) connected

abbrev moved : System N → Link N → System N
moved s l = record s { links = update s.links 7 l }

abbrev all_queued : System N
all_queued = record (moved issued enqueued) { queued = update (λ ch. false) 0 true }

abbrev all_at_work : System N
all_at_work = moved (moved (moved all_queued on_the_way) arrived) at_work

abbrev all_back : System N
all_back = moved (moved all_at_work on_the_way_back) back

abbrev all_handled : System N
all_handled = record (moved all_back handled) {
  server = delivered answer 0 (started (bytes "c1") 0 (register_agent 7 agent initial));
}

connected-Reach : Reach same start connected
unfolding lookup
connected-Reach = next here (connects 7 agent refl refl refl)

issued-Reach : Reach same start issued
unfolding start_command register_agent lookup insert str_eq bytes
issued-Reach = next connected-Reach (starts (bytes "srv_1") 0 7 drop_shop _ refl tt refl refl refl)

queued-Reach : Reach same start all_queued
unfolding issue enqueue
queued-Reach = next issued-Reach (enqueues 0 call enqueued refl refl refl refl)

at_work-Reach : Reach same start all_at_work
unfolding issue send_outbound read_down take_command
at_work-Reach =
    next
      (next (next queued-Reach (moves 7 on_the_way (sends refl refl) refl))
        (moves 7 arrived (reads_down refl) refl))
      (moves 7 at_work (takes refl) refl)

back-Reach : Reach same start all_back
unfolding issue send_up read_up
back-Reach =
    next
      (next at_work-Reach
        (moves 7 on_the_way_back (answers [] [] drop_shop answer refl drop_shop-Answers refl) refl))
      (moves 7 back (reads_up refl) refl)

handled-Reach : Reach same start all_handled
unfolding issue handle_agent_message take_result deliver register_agent lookup insert delete str_eq
    bytes
handled-Reach = next back-Reach (receives 7 100 (command_result answer) [] _ refl refl refl refl)

Reach-Answers_example :
    (i : Issue) × (all_handled.issued 0 ≡ some i)
    × (answer.command_id ≡ i.command.command_id)
    × Answers same i.command answer
unfolding register_agent lookup insert
Reach-Answers_example =
    Reach-Answers same 0 (answered (bytes "c1") answer) answer handled-Reach refl refl

Reach-starts_in_order_example :
    ((rest : List Command) × ((all_at_work.links 7).sent ≡ (all_at_work.links 7).started ++ rest))
    × Distinct (all_at_work.links 7).started
Reach-starts_in_order_example = Reach-starts_in_order same 7 at_work-Reach

Reach-server_example : Server.Reach initial all_handled.server
Reach-server_example = Reach-server same handled-Reach

Reach-drains_example :
    (u : System N) × Reach same all_queued u × ((u.links 7).started ≡ (all_queued.links 7).sent)
Reach-drains_example = Reach-drains same 7 queued-Reach refl

-- Another call of SendCommand finds the queue of an ended session full.
abbrev repeat : ℕ → Command → List Command
repeat zero c = []
repeat (suc n) c = c ∷ repeat n c

abbrev stuck : System N
stuck = moved issued (record (empty_link ended) { queue = repeat 32 drop_shop })

stuck-IsStuck : IsStuck 0 call stuck
unfolding issue
stuck-IsStuck = record { over = refl; full = refl; waits = refl; unsent = refl }

abbrev stuck_later : System N
stuck_later = record stuck {
  server = register_agent 8 agent stuck.server;
  links = update stuck.links 8 (empty_link serving);
}

stuck_later-Reach : Reach same stuck stuck_later
unfolding issue register_agent lookup insert
stuck_later-Reach = next here (connects 8 agent refl refl refl)

Reach-IsStuck_example : IsStuck 0 call stuck_later
Reach-IsStuck_example = Reach-IsStuck same 0 call stuck_later-Reach stuck-IsStuck

-- The agent is connected, and was sent nothing yet.
Reach-completes_example :
    (u : System N) × Reach same connected u
    × (u.issued 0 ≡ some (record { conn = 7; command = drop_shop }))
    × (u.queued 0 ≡ true)
    × (lookup nat_keys 0 u.server.waiters
        ≡ some (record { command_id = bytes "c1"; buffered = some answer }))
unfolding register_agent lookup insert str_eq bytes
Reach-completes_example =
    Reach-completes same (bytes "srv_1") 7 0 drop_shop answer connected-Reach refl refl refl refl tt
      drop_shop-Answers
