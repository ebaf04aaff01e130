-- ===== src/Api/Server/Tests.antt =====
-- A run of server.go: an agent connects, a command is sent to it and answered.
use gratis.Host.{errorf, err}
use gratis.Text.{str_eq, bytes}
use gratis.Api.Server.Steps.{
  starts, connects, here, receives, next, Reach, initial, Reach-IsConsistent,
}
use gratis.Api.Server.Sessions.{reconnect_lost}
use gratis.Api.Server.Pending.{started, delivered, IsConsistent}
use gratis.Proto.{command_result, CommandResult}
use gratis.Api.Server.{
  unregister_agent, deliver, register_agent, take_result, handle_agent_message, State,
  ConnectedAgent, start_command,
}
use gratis.Base.{arith, delete, refl, some, none, true, ◌≡◌, nat_keys, insert, lookup, ◌∷◌, []}

abbrev agent : ConnectedAgent (Unit {0})
agent = record {
  server_id = bytes "srv_1";
  hostname = bytes "host";
  last_metrics = none;
  last_seen = none;
}

abbrev answer : CommandResult
answer = record { command_id = bytes "c1"; success = true; error = [] }

abbrev connected : State (Unit {0})
connected = register_agent 7 agent initial

abbrev sent : State (Unit {0})
sent = started (bytes "c1") 0 connected

abbrev held : State (Unit {0})
held = delivered answer 0 sent

-- Every step of the run computes as the code does.
sent-Reach : Reach initial sent
unfolding start_command register_agent lookup insert str_eq bytes
sent-Reach =
    next (next here (connects 7 agent refl refl))
      (starts (bytes "srv_1") (bytes "c1") 0 7 tt refl refl)

held-Reach : Reach initial held
unfolding handle_agent_message take_result deliver lookup insert delete str_eq bytes
held-Reach = next sent-Reach (receives 7 100 (command_result answer) refl)

Reach-IsConsistent_example : IsConsistent held
Reach-IsConsistent_example = Reach-IsConsistent held-Reach

reconnect_lost_example :
    (lookup nat_keys 2
        (unregister_agent 1
          (bytes "srv_1")
          (register_agent 2 agent (register_agent 1 agent initial))).sessions
      ≡ some agent)
    × (start_command (bytes "srv_1") (bytes "c1") 0 (
          unregister_agent 1
            (bytes "srv_1")
            (register_agent 2 agent (register_agent 1 agent initial)))
        ≡ err (errorf "server %q not connected" (bytes "srv_1" ∷ [])))
reconnect_lost_example =
    reconnect_lost 1 2 agent agent (bytes "c1") 0 initial (λ e. omega (arith, e)) refl
