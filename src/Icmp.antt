-- ===== src/Icmp.antt =====
-- internal/pkg/probe/icmp/icmp.go: the ICMP prober. Calls of `Probe` and the one `readLoop` share
-- the map from sequence numbers to channels, so a run is a sequence of steps of that state. The
-- message format of golang.org/x/net/icmp is a parameter.
pub mod Received
pub mod Routes
pub mod Runs
use mesh_checker.Base.{
  ℕ, ◌+◌, ◌%◌, ◌^◌, ◌≡◌, List, [], ◌∷◌, ◌++◌, true, false, Option, none, some, Text, codes, take,
  Fallible, ok, err, ◌>>=◌, nat_eq,
}
use mesh_checker.Base.Int.{pos}
use mesh_checker.Base.Dict.{Dict, lookup, insert, delete}
use mesh_checker.Probe.{Time, Duration, Result}

-- `icmp.Echo`
pub record Echo : Type 0 where
  pub id : ℕ
  pub seq : ℕ
  pub payload : Text

pub data Body : Type 0 where
  echo_body : Echo → Body
  other_body : Body

-- `icmp.Message`
pub record Message : Type 0 where
  pub kind : ℕ
  pub code : ℕ
  pub body : Body

-- What the code takes from golang.org/x/net.
pub record IcmpFormat : Type 0 where
  pub echo_kind : ℕ
  pub echo_reply_protocol : ℕ
  pub marshal : Message → Fallible Text Text
  pub parse_message : ℕ → Text → Fallible Text Message

unfoldable pub build_echo : IcmpFormat → ℕ → ℕ → Text → Fallible Text Text
build_echo f id seq payload = f.marshal (record {
  kind = f.echo_kind;
  code = 0;
  body = echo_body (record { id = id; seq = seq; payload = payload });
})

-- The second parse, which is made only after the first has failed.
abbrev parse_either : IcmpFormat → Text → Fallible Text Message → Fallible Text Message
parse_either f b (ok m) = ok m
parse_either f b (err e) = f.parse_message 1 b

abbrev echo_of : Body → Fallible Text Echo
echo_of (echo_body e) = ok e
echo_of other_body = err (codes "icmp: not an echo body")

unfoldable pub parse_echo_reply : IcmpFormat → Text → Fallible Text Echo
parse_echo_reply f b =
    parse_either f b (f.parse_message f.echo_reply_protocol b) >>= λ m. echo_of m.body

-- The fields that no call changes; the socket is not modelled.
pub record Prober : Type 0 where
  pub id : ℕ
  pub timeout : Duration

-- `New`, by what `ListenPacket` and `Getpid` give.
unfoldable pub new_prober : Fallible Text (Unit {0}) → ℕ → Duration → Fallible Text Prober
new_prober (err e) pid timeout = err (codes "icmp: " ++ e)
new_prober (ok _) pid timeout = ok (record { id = pid % 2 ^ 16; timeout = timeout })

-- A call of `Probe`: its channel, its sequence number, when it started, and where it sends to.
pub record Call : Type 0 where
  pub channel : ℕ
  pub seq : ℕ
  pub started : Time
  pub addr : Text

-- What the calls and the loop share. Channels are numbered as they are made; `buffers` holds what
-- is in one, which is at most one result. A call first sends, then selects, then has returned.
pub record State : Type 0 where
  pub next_seq : ℕ
  pub pending : Dict ℕ ℕ
  pub made : ℕ
  pub buffers : Dict ℕ Result
  pub sending : List Call
  pub selecting : List Call
  pub returned : List (Call × Result)

abbrev pub new_state : State
new_state = record {
  next_seq = 0;
  pending = [];
  made = 0;
  buffers = [];
  sending = [];
  selecting = [];
  returned = [];
}

-- The call that a `Probe` is, once it has its number and its channel.
abbrev pub new_call : State → Time → Text → Call
new_call x now addr = record {
  channel = x.made;
  seq = (x.next_seq + 1) % 2 ^ 16;
  started = now;
  addr = addr;
}

-- `Probe`, from its first statement to the end of the locked part.
unfoldable pub begin_call : State → Time → Text → State
begin_call x now addr =
    let c = new_call x now addr in
    record x {
      next_seq = c.seq;
      pending = insert c.seq x.made x.pending;
      made = x.made + 1;
      sending = c ∷ x.sending;
    }

-- `ch <- r` on a channel of capacity one: `none` while it is full, which blocks the loop.
abbrev send_to : State → ℕ → Result → Option Result → Option State
send_to x ch r none = some (record x { buffers = insert ch r x.buffers })
send_to x ch r (some old) = none

unfoldable pub deliver : State → Result → Option ℕ → Option State
deliver x r none = some x
deliver x r (some ch) = send_to x ch r (lookup ch x.buffers)

abbrev pub alive : Time → Result
alive now = record { timestamp = now; latency = pos 0; is_ok = true; error = [] }

-- The body of `readLoop`'s loop, for a datagram that comes at the time `now`; the buffer has 1500
-- bytes.
unfoldable pub receive : IcmpFormat → State → Time → Text → Option State
unfolding deliver
receive f x now b = elim (parse_echo_reply f (take 1500 b)) [
  | err _ ↦ some x
  | ok e ↦
      deliver (record x { pending = delete e.seq x.pending }) (alive now) (lookup e.seq x.pending)
]

-- `buildEcho` and `WriteTo`; `write` is what the socket does with the packet.
abbrev pub send :
    IcmpFormat → Prober → Call → (Text → Fallible Text (Unit {0})) → Fallible Text (Unit {0})
send f p c write = build_echo f p.id c.seq (codes "mesh-checker") >>= write

abbrev pub failed : Call → Duration → Text → Result
failed c latency e = record { timestamp = c.started; latency = latency; is_ok = false; error = e }

-- Calls on any goroutines, and the loop. `select` takes any of its cases that is ready.
pub data Step (f : IcmpFormat) (p : Prober) : State → State → Type 0 where
  begins : (x : State) (now : Time) (addr : Text) → Step f p x (begin_call x now addr)
  sends :
      (x : State) (front back : List Call) (c : Call) (write : Text → Fallible Text (Unit {0}))
      → x.sending ≡ front ++ (c ∷ back)
      → send f p c write ≡ ok tt
      → Step f p x (record x { sending = front ++ back; selecting = c ∷ x.selecting })
  send_fails :
      (x : State) (front back : List Call) (c : Call) (write : Text → Fallible Text (Unit {0}))
      (e : Text)
      → x.sending ≡ front ++ (c ∷ back)
      → send f p c write ≡ err e
      → Step f p x
          (record x { sending = front ++ back; returned = (c, failed c (pos 0) e) ∷ x.returned })
  reads : (x y : State) (now : Time) (b : Text) → receive f x now b ≡ some y → Step f p x y
  replies :
      (x : State) (front back : List Call) (c : Call) (r : Result) (latency : Duration)
      → x.selecting ≡ front ++ (c ∷ back)
      → lookup c.channel x.buffers ≡ some r
      → Step f p x (record x {
        selecting = front ++ back;
        buffers = delete c.channel x.buffers;
        returned = (c, record r { latency = latency; timestamp = c.started }) ∷ x.returned;
      })
  times_out :
      (x : State) (front back : List Call) (c : Call) (latency : Duration)
      → x.selecting ≡ front ++ (c ∷ back)
      → Step f p x (record x {
        selecting = front ++ back;
        pending = delete c.seq x.pending;
        returned = (c, failed c latency (codes "timeout")) ∷ x.returned;
      })
  cancelled :
      (x : State) (front back : List Call) (c : Call) (e : Text)
      → x.selecting ≡ front ++ (c ∷ back)
      → Step f p x
          (record x { selecting = front ++ back; returned = (c, failed c (pos 0) e) ∷ x.returned })

-- What a run is told by: the calls that began and the datagrams that were read.
pub data Event : Type 0 where
  began : Call → Event
  read : Text → Event

abbrev pub events_of : {f : IcmpFormat} {p : Prober} {x y : State} → Step f p x y → List Event
events_of (begins x now addr) = began (new_call x now addr) ∷ []
events_of (sends x front back c write here sent) = []
events_of (send_fails x front back c write e here unsent) = []
events_of (reads x y now b got) = read b ∷ []
events_of (replies x front back c r latency here got) = []
events_of (times_out x front back c latency here) = []
events_of (cancelled x front back c e here) = []

-- The states that a run comes to, with what happened, the last event first.
pub data Reaches (f : IcmpFormat) (p : Prober) : List Event → State → Type 0 where
  opened : Reaches f p [] new_state
  after :
      (log : List Event) (x y : State) (step : Step f p x y)
      → Reaches f p log x
      → Reaches f p (events_of step ++ log) y
