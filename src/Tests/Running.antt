-- ===== src/Tests/Running.antt =====
-- The theorems on the scheduler and the ICMP prober, at concrete inputs.
use mesh_checker.Base.{
  List, ℕ, ◌+◌, ◌-◌, ◌≤◌, ◌⊎◌, ◌≡◌, ◌≢◌, refl, true, none, some, [], ◌∷◌, Text, codes, nat_eq,
  Fallible, ok, err, arith,
}
use mesh_checker.Base.Int.{ℤ, pos, negsuc, ◌≤ℤ◌}
use mesh_checker.Base.Dict
use mesh_checker.Probe.{zero_result, Duration, Result}
use mesh_checker.Store.{new, append}
use mesh_checker.Scheduler
use mesh_checker.Scheduler.Next
use mesh_checker.Scheduler.Next.Bounds.{DrawsBelow, share, next_bounds}
use mesh_checker.Scheduler.Silent.{IsIdle, silent}
use mesh_checker.Scheduler.Drain.Accounts.{Steps, idle, more, left}
use mesh_checker.Scheduler.Drain.{CanStep, Returned, Steps-returns}
use mesh_checker.Icmp
use mesh_checker.Icmp.Routes.{Heard}
use mesh_checker.Icmp.Runs.{returned-Heard, receive-Reaches}
use mesh_checker.Tests.Access.{job_b, scheduler_a}

abbrev config_of : Duration → Next.Config
config_of interval = record {
  interval = interval;
  jitter_percent = pos 10;
  workers = pos 4;
  timeout = pos 3000000000;
}

abbrev draw_zero : ℤ → ℤ
draw_zero n = pos 0

draw_zero-DrawsBelow : DrawsBelow draw_zero
draw_zero-DrawsBelow n h = (omega arith, h)

next_bounds_example :
    (d : Duration) × (Next.next (config_of (pos 10000000000)) draw_zero ≡ some d)
    × (pos (10000000000 - share 10000000000 10) ≤ℤ d)
    × (d ≤ℤ pos (10000000000 + share 10000000000 10))
next_bounds_example =
    next_bounds (config_of (pos 10000000000)) draw_zero 10000000000 10 draw_zero-DrawsBelow refl
      refl (omega arith) (omega arith)

-- An interval of minus ten seconds.
abbrev silent_scheduler : Scheduler.Scheduler ℕ
silent_scheduler = record {
  cfg = config_of (negsuc 9999999999);
  jobs = job_b ∷ [];
  store = new (pos 2);
}

silent_example : IsIdle silent_scheduler (Scheduler.start silent_scheduler)
silent_example =
    silent silent_scheduler 9999999999 10 refl refl (omega arith) (omega arith) Scheduler.begin

-- No ticker is left, one job is held and one queued.
abbrev busy : Scheduler.State ℕ
busy = record {
  queue = job_b ∷ [];
  running = job_b ∷ [];
  store = new (pos 2);
  workers = 1;
  tickers = [];
  cancelled = true;
  closed = true;
}

abbrev half_done : Scheduler.State ℕ
half_done = record busy {
  running = [];
  store = append (new (pos 2)) job_b.peer job_b.protocol zero_result;
}

abbrev worked_off : Scheduler.State ℕ
worked_off = record half_done {
  queue = [];
  store = append half_done.store job_b.peer job_b.protocol zero_result;
}

abbrev all_done : Scheduler.State ℕ
all_done = record worked_off { workers = 0 }

busy-Steps : Steps scheduler_a 4 busy all_done
busy-Steps =
    let taken = record half_done { queue = []; running = job_b ∷ [] } in
    more 3 busy half_done all_done (Scheduler.finish busy [] [] job_b zero_result refl) (
      more 2 half_done taken all_done (Scheduler.take half_done [] job_b refl (omega arith)) (
        more 1 taken worked_off all_done (Scheduler.finish taken [] [] job_b zero_result refl) (
          more 0 worked_off all_done all_done (Scheduler.leave worked_off refl refl (omega arith))
            (idle all_done))))

Steps-returns_example :
    (4 ≤ left scheduler_a busy)
    × (CanStep scheduler_a all_done ⊎ Returned scheduler_a busy all_done)
Steps-returns_example = Steps-returns scheduler_a 4 refl busy-Steps

-- Messages as their identifier, their number and their payload.
abbrev bytes_of : Icmp.Body → Fallible Text Text
bytes_of (Icmp.echo_body e) = ok (e.id ∷ e.seq ∷ e.payload)
bytes_of Icmp.other_body = err (codes "unsupported")

abbrev message_of : ℕ → Text → Fallible Text Icmp.Message
message_of protocol (id ∷ seq ∷ payload) = ok (record {
  kind = 0;
  code = 0;
  body = Icmp.echo_body (record { id = id; seq = seq; payload = payload });
})
message_of protocol b = err (codes "too short")

abbrev format : Icmp.IcmpFormat
format = record {
  echo_kind = 8;
  echo_reply_protocol = 1;
  marshal = λ m. bytes_of m.body;
  parse_message = message_of;
}

abbrev prober : Icmp.Prober
prober = record { id = 7; timeout = pos 3000000000 }

abbrev call : Icmp.Call
call = record { channel = 0; seq = 1; started = pos 5; addr = codes "10.0.0.2" }

abbrev reply : Text
reply = 7 ∷ 1 ∷ []

abbrev sending_state : Icmp.State
sending_state = record {
  next_seq = 1;
  pending = (1, 0) ∷ [];
  made = 1;
  buffers = [];
  sending = call ∷ [];
  selecting = [];
  returned = [];
}

abbrev waiting_state : Icmp.State
waiting_state = record sending_state { sending = []; selecting = call ∷ [] }

abbrev answered_state : Icmp.State
answered_state = record waiting_state { pending = []; buffers = (0, Icmp.alive (pos 9)) ∷ [] }

abbrev success : Result
success = record { timestamp = pos 5; latency = pos 4; is_ok = true; error = [] }

abbrev returned_state : Icmp.State
returned_state = record answered_state {
  buffers = [];
  selecting = [];
  returned = (call, success) ∷ [];
}

abbrev begun_log : List Icmp.Event
begun_log = Icmp.began call ∷ []

abbrev heard_log : List Icmp.Event
heard_log = Icmp.read reply ∷ begun_log

sending-Reaches : Icmp.Reaches format prober begun_log sending_state
unfolding Icmp.begin_call Dict.insert
sending-Reaches =
    Icmp.after [] Icmp.new_state sending_state
      (Icmp.begins Icmp.new_state (pos 5) (codes "10.0.0.2")) Icmp.opened

waiting-Reaches : Icmp.Reaches format prober begun_log waiting_state
unfolding Icmp.build_echo
waiting-Reaches =
    Icmp.after begun_log sending_state waiting_state
      (Icmp.sends sending_state [] [] call (λ b. ok tt) refl refl) sending-Reaches

answered-Reaches : Icmp.Reaches format prober heard_log answered_state
unfolding Icmp.receive Icmp.deliver Icmp.parse_echo_reply Dict.lookup Dict.delete Dict.insert nat_eq
answered-Reaches =
    Icmp.after begun_log waiting_state answered_state
      (Icmp.reads waiting_state answered_state (pos 9) reply refl) waiting-Reaches

returned-Reaches : Icmp.Reaches format prober heard_log returned_state
unfolding Dict.lookup Dict.delete nat_eq
returned-Reaches =
    Icmp.after heard_log answered_state returned_state
      (Icmp.replies answered_state [] [] call (Icmp.alive (pos 9)) (pos 4) refl refl)
      answered-Reaches

returned-Heard_example : Heard format call heard_log
returned-Heard_example =
    returned-Heard format prober heard_log returned_state call success [] [] returned-Reaches refl
      refl

receive-Reaches_example : Icmp.receive format waiting_state (pos 9) reply ≢ none
receive-Reaches_example =
    receive-Reaches format prober begun_log waiting_state (pos 9) reply waiting-Reaches
