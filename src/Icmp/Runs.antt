-- ===== src/Icmp/Runs.antt =====
-- What holds of the ICMP prober's state in every interleaving of calls, datagrams and timeouts.
use mesh_checker.Base.{
  some-none, ℕ, ◌^◌, ◌<◌, ◌≡◌, ◌≢◌, refl, sym, subst, ◌∙◌, List, ◌∷◌, ◌++◌, true, none, some, Text,
  codes, nat_eq, All, All-cut, All-map, arith, inl, inr,
}
use mesh_checker.Base.Dict.{lookup, inserted, some_injective}
use mesh_checker.Base.Int.{pos}
use mesh_checker.Probe.{Time, Result}
use mesh_checker.Icmp.{
  IcmpFormat, Prober, Call, State, begin_call, failed, receive, Step, begins, sends, send_fails,
  reads, replies, times_out, cancelled, events_of, Event, began, read, new_call, Reaches, opened,
  after,
}
use mesh_checker.Icmp.Routes.{
  Heard, there, at_last, IsRouted, IsAnswerable, begin_call-IsRouted, begin_call-IsAnswerable,
  forget, forget-IsRouted, forget-IsAnswerable, routed_to, drained, drained-IsRouted,
  drained-IsAnswerable, staged, staged-IsRouted, staged-IsAnswerable, unmade, told-IsAnswerable,
}
use mesh_checker.Icmp.Received.{
  Received, ignored, unasked, answers, received, received-IsRouted, received-IsAnswerable,
}

module _ (f : IcmpFormat) (p : Prober) where
  -- A call that has returned a success had an answer.
  abbrev pub IsHonest : List Event → Call × Result → Type 0
  IsHonest log (c, r) = r.is_ok ≡ true → Heard f c log

  pub record IsRun (log : List Event) (x : State) : Type 0 where
    pub routed : IsRouted x
    pub sending : All (IsAnswerable f log x) x.sending
    pub selecting : All (IsAnswerable f log x) x.selecting
    pub returned : All (IsHonest log) x.returned

  -- A change of the map or of the channels.
  changed-IsRun :
      (log : List Event) (x y : State)
      → ((c : Call) → IsAnswerable f log x c → IsAnswerable f log y c)
      → IsRouted y
      → All (IsAnswerable f log x) y.sending
      → All (IsAnswerable f log x) y.selecting
      → All (IsHonest log) y.returned
      → IsRun log y
  changed-IsRun log x y keeps i a b c = record {
    routed = i;
    sending = All-map (IsAnswerable f log x) (IsAnswerable f log y) y.sending keeps a;
    selecting = All-map (IsAnswerable f log x) (IsAnswerable f log y) y.selecting keeps b;
    returned = c;
  }

  forget-IsRun : (log : List Event) (x : State) (seq : ℕ) → IsRun log x → IsRun log (forget x seq)
  forget-IsRun log x seq r =
      changed-IsRun log x (forget x seq) (forget-IsAnswerable f log x seq)
        (forget-IsRouted x seq r.routed) r.sending r.selecting r.returned

  drained-IsRun : (log : List Event) (x : State) (ch : ℕ) → IsRun log x → IsRun log (drained x ch)
  drained-IsRun log x ch r =
      changed-IsRun log x (drained x ch) (drained-IsAnswerable f log x ch)
        (drained-IsRouted x ch r.routed) r.sending r.selecting r.returned

  -- A change of the stages alone.
  staged-IsRun :
      (log : List Event) (x : State) (a b : List Call) (c : List (Call × Result))
      → IsRouted x
      → All (IsAnswerable f log x) a
      → All (IsAnswerable f log x) b
      → All (IsHonest log) c
      → IsRun log (staged x a b c)
  staged-IsRun log x a b c i p q r =
      changed-IsRun log x (staged x a b c) (staged-IsAnswerable f log x a b c)
        (staged-IsRouted x a b c i) p q r

  -- A call leaves `select` with a result that is honest.
  leaves-IsRun :
      (log : List Event) (x : State) (front back : List Call) (c : Call) (r : Result)
      → x.selecting ≡ front ++ (c ∷ back)
      → IsHonest log (c, r)
      → IsRun log x
      → IsRun log (staged x x.sending (front ++ back) ((c, r) ∷ x.returned))
  leaves-IsRun log x front back c r here honest i =
      let (_, held) =
        All-cut (IsAnswerable f log x) front back c
          (subst (All (IsAnswerable f log x)) here i.selecting) in
      staged-IsRun log x x.sending (front ++ back) ((c, r) ∷ x.returned) i.routed i.sending held
        (honest, i.returned)

  IsHonest-cons :
      (log : List Event) (a : Event) (r : Call × Result) → IsHonest log r → IsHonest (a ∷ log) r
  IsHonest-cons log a (c, r) h = λ success. there a log (h success)

  begin_call-IsRun :
      (log : List Event) (x : State) (now : Time) (addr : Text)
      → IsRun log x
      → IsRun (began (new_call x now addr) ∷ log) (begin_call x now addr)
  unfolding begin_call
  begin_call-IsRun log x now addr r =
      let y = begin_call x now addr in
      let c = new_call x now addr in
      let told = began c ∷ log in
      let keeps = λ (d : Call) (a : IsAnswerable f log x d).
        told-IsAnswerable f (began c) log y d (begin_call-IsAnswerable f log x now addr d a) in
      record {
        routed = begin_call-IsRouted x now addr r.routed;
        sending = (
          record {
            channel_made = omega arith;
            own_seq = λ s e. elim (inserted s c.seq x.made x.made x.pending e) [
              | inl (q, _) ↦ q
              | inr (_, old) ↦ absurd (omega (arith, r.routed.waiting_made s x.made old))
            ];
            answered = λ q e. absurd (some-none q (sym e ∙ unmade x r.routed));
            begun = at_last log;
          },
          All-map (IsAnswerable f log x) (IsAnswerable f told y) x.sending keeps r.sending,
        );
        selecting =
            All-map (IsAnswerable f log x) (IsAnswerable f told y) x.selecting keeps r.selecting;
        returned =
            All-map (IsHonest log) (IsHonest told) x.returned (IsHonest-cons log (began c))
              r.returned;
      }

  -- A datagram changes no stage.
  read-IsRun :
      (log : List Event) (x y : State) (b : Text)
      → Received f x b y
      → IsRouted x
      → All (IsAnswerable f log x) y.sending
      → All (IsAnswerable f log x) y.selecting
      → All (IsHonest log) y.returned
      → IsRun (read b ∷ log) y
  read-IsRun log x y b how i p q r =
      let keeps = λ (c : Call). received-IsAnswerable f log x y b c how in
      record {
        routed = received-IsRouted f x y b how i;
        sending =
            All-map (IsAnswerable f log x) (IsAnswerable f (read b ∷ log) y) y.sending keeps p;
        selecting =
            All-map (IsAnswerable f log x) (IsAnswerable f (read b ∷ log) y) y.selecting keeps q;
        returned =
            All-map (IsHonest log) (IsHonest (read b ∷ log)) y.returned (IsHonest-cons log (read b))
              r;
      }

  received-IsRun :
      (log : List Event) (x y : State) (b : Text)
      → Received f x b y
      → IsRun log x
      → IsRun (read b ∷ log) y
  received-IsRun log x _ b ignored r =
      read-IsRun log x x b ignored r.routed r.sending r.selecting r.returned
  received-IsRun log x _ b (unasked e) r =
      read-IsRun log x (forget x e.seq) b (unasked e) r.routed r.sending r.selecting r.returned
  received-IsRun log x _ b (answers e ch a p q) r =
      read-IsRun log x (routed_to x e.seq ch a) b (answers e ch a p q) r.routed r.sending
        r.selecting r.returned

  Step-IsRun :
      {x y : State} (log : List Event) (step : Step f p x y)
      → IsRun log x
      → IsRun (events_of step ++ log) y
  Step-IsRun log (begins x now addr) r = begin_call-IsRun log x now addr r
  Step-IsRun log (sends x front back c write here sent) r =
      let (known, held) =
        All-cut (IsAnswerable f log x) front back c
          (subst (All (IsAnswerable f log x)) here r.sending) in
      staged-IsRun log x (front ++ back) (c ∷ x.selecting) x.returned r.routed held
        (known, r.selecting) r.returned
  Step-IsRun log (send_fails x front back c write e here unsent) r =
      let (_, held) =
        All-cut (IsAnswerable f log x) front back c
          (subst (All (IsAnswerable f log x)) here r.sending) in
      staged-IsRun log x (front ++ back) x.selecting ((c, failed c (pos 0) e) ∷ x.returned) r.routed
        held r.selecting ((λ h. cc), r.returned)
  Step-IsRun log (reads x y now b got) r =
      let (z, got_z, how) = received f x now b r.routed in
      let same : z ≡ y = some_injective z y (sym got_z ∙ got) in
      received-IsRun log x y b (subst (Received f x b) same how) r
  Step-IsRun log (replies x front back c r latency here got) i =
      let (known, _) =
        All-cut (IsAnswerable f log x) front back c
          (subst (All (IsAnswerable f log x)) here i.selecting) in
      leaves-IsRun log (drained x c.channel) front back c
        (record r { latency = latency; timestamp = c.started }) here (λ h. known.answered r got)
        (drained-IsRun log x c.channel i)
  Step-IsRun log (times_out x front back c latency here) i =
      leaves-IsRun log (forget x c.seq) front back c (failed c latency (codes "timeout")) here
        (λ h. cc) (forget-IsRun log x c.seq i)
  Step-IsRun log (cancelled x front back c e here) i =
      leaves-IsRun log x front back c (failed c (pos 0) e) here (λ h. cc) i

  pub Reaches-IsRun : {log : List Event} {x : State} → Reaches f p log x → IsRun log x
  unfolding lookup
  Reaches-IsRun opened = record {
    routed = record {
      next_bound = omega arith;
      seq_bound = λ s ch e. cc;
      waiting_made = λ s ch e. cc;
      waiting_empty = λ s ch e. refl;
      waiting_once = λ s t ch e e'. cc;
      buffer_made = λ ch r e. cc;
    };
    sending = tt;
    selecting = tt;
    returned = tt;
  }
  Reaches-IsRun (after log x y step reached) = Step-IsRun log step (Reaches-IsRun reached)

  -- In every state of a run, a call of `Probe` that has returned a success began, and after it
  -- began, an echo message with its sequence number was read.
  pub returned-Heard :
      (log : List Event) (x : State) (c : Call) (r : Result) (front back : List (Call × Result))
      → Reaches f p log x
      → x.returned ≡ front ++ ((c, r) ∷ back)
      → r.is_ok ≡ true
      → Heard f c log
  returned-Heard log x c r front back reached here success =
      (All-cut (IsHonest log) front back (c, r)
          (subst (All (IsHonest log)) here (Reaches-IsRun reached).returned)).0
        success

  -- In every state of a run, whatever datagram comes, the read loop takes it without blocking on a
  -- full channel.
  pub receive-Reaches :
      (log : List Event) (x : State) (now : Time) (b : Text)
      → Reaches f p log x
      → receive f x now b ≢ none
  receive-Reaches log x now b reached blocked =
      let (y, got, _) = received f x now b (Reaches-IsRun reached).routed in
      some-none y (sym got ∙ blocked)

  -- In every state of a run, the sequence numbers that are waited for fit into 16 bits, and no
  -- channel waits under two of them.
  pub pending-Reaches :
      (log : List Event) (x : State) (s t ch : ℕ)
      → Reaches f p log x
      → lookup s x.pending ≡ some ch
      → lookup t x.pending ≡ some ch
      → (s < 2 ^ 16) × (s ≡ t)
  pending-Reaches log x s t ch reached e e' =
      let i = (Reaches-IsRun reached).routed in (i.seq_bound s ch e, i.waiting_once s t ch e e')
