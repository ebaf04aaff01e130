-- ===== src/Agent/Session.antt =====
-- agent/internal/rpc/agent.go: the handshake, and what the agent says to the API. What gRPC answers
-- is a parameter.
pub mod Turns
pub mod Loop
pub mod Tests
pub mod Run
use gratis.Agent.Metrics.{cpu_percent, LoadAvg, DiskInfo, MemInfo, CpuSample, Floats}
use gratis.Host.{wrapf, Error, errorf, ok, err, Result}
use gratis.Text.{bytes, Str}
use gratis.Proto.{
  RegisterResponse, empty, command, command_result, Heartbeat, AgentMessage, RegisterRequest,
  register_response, CommandResult, ServerMessage,
}
use gratis.Base.{
  refl, ◌∙◌, arith, sym, inr, inl, Option-cases, Bool-cases, true, ◌↔◌, ◌≡◌, none, not, some,
  if◌then◌else◌, Option, ◌∷◌, [],
}

-- RegisterRequest of `connect`; the architecture is that of the build.
unfoldable pub register_request : Str → Str → Str → RegisterRequest
register_request token hostname arch = record {
  token = token;
  hostname = hostname;
  os = bytes "linux";
  arch = arch;
  version = bytes "0.1.0";
}

-- What `connect` makes of the first message of the API.
unfoldable pub check_response : ServerMessage → Result (Unit {0})
check_response (register_response r) =
    if not r.accepted then err (errorf "registration rejected: %s" (r.message ∷ [])) else ok tt
check_response (command c) =
    err (errorf "expected RegisterResponse, got %T" (bytes "*agentv1.ServerMessage_Command" ∷ []))
check_response empty = err (errorf "expected RegisterResponse, got %T" (bytes "<nil>" ∷ []))

-- What gRPC does for `connect`: a failure of grpc.NewClient, of Connect and of Send, and Recv.
pub record Wire : Type 0 where
  pub dialled : Option Error
  pub opened : Option Error
  pub registered : Option Error
  pub received : Result ServerMessage

-- The answer of Recv.
check_received : Result ServerMessage → Result (Unit {0})
check_received (err e) = err (wrapf "recv register response: %w" [] e [])
check_received (ok m) = check_response m

-- `connect` up to its session.
pub connect : Str → Wire → Result (Unit {0})
connect api_addr w = elim w.dialled [
  | some e ↦ err (wrapf "dial %s: %w" (api_addr ∷ []) e [])
  | none ↦ elim w.opened [
    | some e ↦ err (wrapf "open stream: %w" [] e [])
    | none ↦ elim w.registered [
      | some e ↦ err (wrapf "send register: %w" [] e [])
      | none ↦ check_received w.received
    ]
  ]
]

check_received-ok_iff :
    (m : Result ServerMessage)
    → (check_received m ≡ ok tt)
      ↔ ((r : RegisterResponse) × (m ≡ ok (register_response r)) × (r.accepted ≡ true))
unfolding check_received check_response
check_received-ok_iff (err e) = (λ h. cc h, λ (r, p, _). cc p)
check_received-ok_iff (ok (command c)) = (λ h. cc h, λ (r, p, _). cc p)
check_received-ok_iff (ok empty) = (λ h. cc h, λ (r, p, _). cc p)
check_received-ok_iff (ok (register_response r)) = elim (Bool-cases r.accepted) [
  | inl e ↦ (λ h. (r, refl, e), λ p. rw e refl)
  | inr e ↦ (λ h. absurd (ground (arith, e, h)), λ (r', p, q). absurd (ground (arith, e, p, q)))
]

-- `connect` goes on to its session exactly where gRPC carries the handshake through and the API
-- accepts it.
pub connect-ok_iff :
    (api_addr : Str) (w : Wire)
    → (connect api_addr w ≡ ok tt) ↔ (
        (w.dialled ≡ none)
        × (w.opened ≡ none)
        × (w.registered ≡ none)
        × ((r : RegisterResponse) × (w.received ≡ ok (register_response r)) × (r.accepted ≡ true)))
unfolding connect
connect-ok_iff api_addr w = elim (Option-cases w.dialled) [
  | inr (e, p) ↦ (λ h. cc (p, h), λ (q, _, _, _). cc (p, q))
  | inl p ↦ elim (Option-cases w.opened) [
    | inr (e, q) ↦ (λ h. cc (p, q, h), λ (_, x, _, _). cc (q, x))
    | inl q ↦ elim (Option-cases w.registered) [
      | inr (e, x) ↦ (λ h. cc (p, q, x, h), λ (_, _, y, _). cc (x, y))
      | inl x ↦
          let same : connect api_addr w ≡ check_received w.received = rw (connect, p, q, x) refl in
          (
            λ h. (p, q, x, (check_received-ok_iff w.received).0 (sym same ∙ h)),
            λ (_, _, _, y). same ∙ (check_received-ok_iff w.received).1 y,
          )
    ]
  ]
]

-- The CPU part of buildHeartbeat: the percentage, and the sample to keep.
pub cpu_part : (fl : Floats) → CpuSample → Result CpuSample → fl.Float × CpuSample
cpu_part fl last (err e) = (fl.of_uint 0, last)
cpu_part fl last (ok cur) = (cpu_percent fl last cur, cur)

abbrev pub mem_part : Result MemInfo → MemInfo
mem_part (err e) = record { total = 0; used = 0 }
mem_part (ok m) = m

abbrev pub disk_part : Result DiskInfo → DiskInfo
disk_part (err e) = record { total = 0; used = 0 }
disk_part (ok i) = i

pub load_part : (fl : Floats) → Result (LoadAvg fl.Float) → LoadAvg fl.Float
load_part fl (err e) = record {
  load_1 = fl.of_uint 0;
  load_5 = fl.of_uint 0;
  load_15 = fl.of_uint 0;
}
load_part fl (ok l) = l

-- buildHeartbeat: the heartbeat, and the sample of the CPU that the agent keeps.
pub build_heartbeat :
    (fl : Floats)
    → CpuSample
    → Result CpuSample
    → Result MemInfo
    → Result DiskInfo
    → Result (LoadAvg fl.Float)
    → Heartbeat fl.Float × CpuSample
unfolding cpu_part load_part
build_heartbeat fl last cpu mem disk load = (
  record {
    metrics = some (record {
      cpu_percent = (cpu_part fl last cpu).0;
      mem_total = (mem_part mem).total;
      mem_used = (mem_part mem).used;
      disk_total = (disk_part disk).total;
      disk_used = (disk_part disk).used;
      load_1 = (load_part fl load).load_1;
      load_5 = (load_part fl load).load_5;
      load_15 = (load_part fl load).load_15;
    });
  },
  (cpu_part fl last cpu).1,
)

-- handleCommand: the message that answers a command, where the agent survives it.
pub answer_to : {Float : Type 0} → Option CommandResult → Option (AgentMessage Float)
answer_to none = none
answer_to (some r) = some (command_result r)
