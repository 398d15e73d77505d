-- ===== src/Icmp/Routes.antt =====
-- Which channel a message goes to: what holds of the map, the channels and one call, and that each
-- change of the map or of a channel keeps it.
use mesh_checker.Base.{
  some-none, ℕ, ◌+◌, ◌%◌, ◌^◌, ◌<◌, ◌≡◌, sym, ap, subst, ◌∙◌, List, ◌∷◌, none, some, Text, ok,
  nat_eq, take, arith, inl, inr, Option-cases,
}
use mesh_checker.Base.Dict.{lookup, insert, delete, inserted, deleted}
use mesh_checker.Probe.{Time, Result}
use mesh_checker.Icmp.{
  Echo, IcmpFormat, parse_echo_reply, Event, began, read, Call, State, begin_call,
}

-- The call began.
pub data Begun (c : Call) : List Event → Type 0 where
  at_last : (log : List Event) → Begun c (began c ∷ log)
  earlier : (a : Event) (log : List Event) → Begun c log → Begun c (a ∷ log)

-- After the call began, some datagram that was read was an echo message with its sequence number.
pub data Heard (f : IcmpFormat) (c : Call) : List Event → Type 0 where
  here :
      (b : Text) (e : Echo) (log : List Event)
      → parse_echo_reply f (take 1500 b) ≡ ok e
      → e.seq ≡ c.seq
      → Begun c log
      → Heard f c (read b ∷ log)
  there : (a : Event) (log : List Event) → Heard f c log → Heard f c (a ∷ log)

-- No channel waits under two numbers; each that waits has been made and is empty.
pub record IsRouted (x : State) : Type 0 where
  pub next_bound : x.next_seq < 2 ^ 16
  pub seq_bound : (s ch : ℕ) → lookup s x.pending ≡ some ch → s < 2 ^ 16
  pub waiting_made : (s ch : ℕ) → lookup s x.pending ≡ some ch → ch < x.made
  pub waiting_empty : (s ch : ℕ) → lookup s x.pending ≡ some ch → lookup ch x.buffers ≡ none
  pub waiting_once :
      (s t ch : ℕ) → lookup s x.pending ≡ some ch → lookup t x.pending ≡ some ch → s ≡ t
  pub buffer_made : (ch : ℕ) (r : Result) → lookup ch x.buffers ≡ some r → ch < x.made

-- A call's channel waits under no number but the call's own, and has a result only if such a
-- message came.
pub record IsAnswerable (f : IcmpFormat) (log : List Event) (x : State) (c : Call) : Type 0 where
  pub channel_made : c.channel < x.made
  pub own_seq : (s : ℕ) → lookup s x.pending ≡ some c.channel → s ≡ c.seq
  pub answered : (r : Result) → lookup c.channel x.buffers ≡ some r → Heard f c log
  pub begun : Begun c log

pub unmade : (x : State) → IsRouted x → lookup x.made x.buffers ≡ none
unmade x i = elim (Option-cases (lookup x.made x.buffers)) [
  | inl e ↦ e
  | inr (r, e) ↦ absurd (omega (arith, i.buffer_made x.made r e))
]

pub begin_call-IsRouted :
    (x : State) (now : Time) (addr : Text) → IsRouted x → IsRouted (begin_call x now addr)
unfolding begin_call
begin_call-IsRouted x now addr i =
    let seq = (x.next_seq + 1) % 2 ^ 16 in
    record {
      next_bound = omega arith;
      seq_bound = λ s ch e. elim (inserted s seq x.made ch x.pending e) [
        | inl (p, q) ↦ omega (arith, p)
        | inr (n, old) ↦ i.seq_bound s ch old
      ];
      waiting_made = λ s ch e. elim (inserted s seq x.made ch x.pending e) [
        | inl (p, q) ↦ omega (arith, q)
        | inr (n, old) ↦ omega (arith, i.waiting_made s ch old)
      ];
      waiting_empty = λ s ch e. elim (inserted s seq x.made ch x.pending e) [
        | inl (p, q) ↦ subst (λ c. lookup c x.buffers ≡ none) q (unmade x i)
        | inr (n, old) ↦ i.waiting_empty s ch old
      ];
      waiting_once = λ s t ch e e'. elim (inserted s seq x.made ch x.pending e) [
        | inl (p, q) ↦ elim (inserted t seq x.made ch x.pending e') [
          | inl (p', q') ↦ p ∙ sym p'
          | inr (n', old') ↦ absurd (omega (arith, q, i.waiting_made t ch old'))
        ]
        | inr (n, old) ↦ elim (inserted t seq x.made ch x.pending e') [
          | inl (p', q') ↦ absurd (omega (arith, q', i.waiting_made s ch old))
          | inr (n', old') ↦ i.waiting_once s t ch old old'
        ]
      ];
      buffer_made = λ ch r e. omega (arith, i.buffer_made ch r e);
    }

pub begin_call-IsAnswerable :
    (f : IcmpFormat) (log : List Event) (x : State) (now : Time) (addr : Text) (c : Call)
    → IsAnswerable f log x c
    → IsAnswerable f log (begin_call x now addr) c
unfolding begin_call
begin_call-IsAnswerable f log x now addr c a = record {
  channel_made = omega (arith, a.channel_made);
  own_seq = λ s e. elim (inserted s ((x.next_seq + 1) % 2 ^ 16) x.made c.channel x.pending e) [
    | inl (p, q) ↦ absurd (omega (arith, q, a.channel_made))
    | inr (n, old) ↦ a.own_seq s old
  ];
  answered = a.answered;
  begun = a.begun;
}

-- A sequence number is taken out of the map.
abbrev pub forget : State → ℕ → State
forget x seq = record x { pending = delete seq x.pending }

pub forget-IsRouted : (x : State) (seq : ℕ) → IsRouted x → IsRouted (forget x seq)
forget-IsRouted x seq i = record {
  next_bound = i.next_bound;
  seq_bound = λ s ch e. i.seq_bound s ch (deleted s seq ch x.pending e).1;
  waiting_made = λ s ch e. i.waiting_made s ch (deleted s seq ch x.pending e).1;
  waiting_empty = λ s ch e. i.waiting_empty s ch (deleted s seq ch x.pending e).1;
  waiting_once = λ s t ch e e'.
      i.waiting_once s t ch (deleted s seq ch x.pending e).1 (deleted t seq ch x.pending e').1;
  buffer_made = i.buffer_made;
}

pub forget-IsAnswerable :
    (f : IcmpFormat) (log : List Event) (x : State) (seq : ℕ) (c : Call)
    → IsAnswerable f log x c
    → IsAnswerable f log (forget x seq) c
forget-IsAnswerable f log x seq c a = record {
  channel_made = a.channel_made;
  own_seq = λ s e. a.own_seq s (deleted s seq c.channel x.pending e).1;
  answered = a.answered;
  begun = a.begun;
}

-- The message for a waiting channel.
abbrev pub routed_to : State → ℕ → ℕ → Result → State
routed_to x seq ch r = record x { pending = delete seq x.pending; buffers = insert ch r x.buffers }

pub routed_to-IsRouted :
    (x : State) (seq ch : ℕ) (r : Result)
    → lookup seq x.pending ≡ some ch
    → IsRouted x
    → IsRouted (routed_to x seq ch r)
routed_to-IsRouted x seq ch r waits i =
    let gone = forget-IsRouted x seq i in
    record {
      next_bound = i.next_bound;
      seq_bound = gone.seq_bound;
      waiting_made = gone.waiting_made;
      waiting_empty = λ s d e.
          let (other, old) = deleted s seq d x.pending e in
          elim (Option-cases (lookup d (insert ch r x.buffers))) [
            | inl none_there ↦ none_there
            | inr (q, there_is) ↦ elim (inserted d ch r q x.buffers there_is) [
              | inl (p, _) ↦ absurd (other (i.waiting_once s seq ch (old ∙ ap some p) waits))
              | inr (_, full) ↦ absurd (some-none q (sym full ∙ i.waiting_empty s d old))
            ]
          ];
      waiting_once = gone.waiting_once;
      buffer_made = λ d q e. elim (inserted d ch r q x.buffers e) [
        | inl (p, _) ↦ omega (arith, p, i.waiting_made seq ch waits)
        | inr (_, old) ↦ i.buffer_made d q old
      ];
    }

pub routed_to-IsAnswerable :
    (f : IcmpFormat) (log : List Event) (x : State) (seq ch : ℕ) (r : Result) (c : Call)
    → lookup seq x.pending ≡ some ch
    → (seq ≡ c.seq → Heard f c log)
    → IsAnswerable f log x c
    → IsAnswerable f log (routed_to x seq ch r) c
routed_to-IsAnswerable f log x seq ch r c waits heard a = record {
  channel_made = a.channel_made;
  own_seq = (forget-IsAnswerable f log x seq c a).own_seq;
  answered = λ q e. elim (inserted c.channel ch r q x.buffers e) [
    | inl (p, _) ↦ heard (a.own_seq seq (waits ∙ ap some (sym p)))
    | inr (_, old) ↦ a.answered q old
  ];
  begun = a.begun;
}

-- A call that has its result leaves its channel empty.
abbrev pub drained : State → ℕ → State
drained x ch = record x { buffers = delete ch x.buffers }

pub drained-IsRouted : (x : State) (ch : ℕ) → IsRouted x → IsRouted (drained x ch)
drained-IsRouted x ch i = record {
  next_bound = i.next_bound;
  seq_bound = i.seq_bound;
  waiting_made = i.waiting_made;
  waiting_empty = λ s d e. elim (Option-cases (lookup d (delete ch x.buffers))) [
    | inl none_there ↦ none_there
    | inr (q, there_is) ↦
        absurd (some-none q (sym (deleted d ch q x.buffers there_is).1 ∙ i.waiting_empty s d e))
  ];
  waiting_once = i.waiting_once;
  buffer_made = λ d q e. i.buffer_made d q (deleted d ch q x.buffers e).1;
}

pub drained-IsAnswerable :
    (f : IcmpFormat) (log : List Event) (x : State) (ch : ℕ) (c : Call)
    → IsAnswerable f log x c
    → IsAnswerable f log (drained x ch) c
drained-IsAnswerable f log x ch c a = record {
  channel_made = a.channel_made;
  own_seq = a.own_seq;
  answered = λ q e. a.answered q (deleted c.channel ch q x.buffers e).1;
  begun = a.begun;
}

-- The lists of calls by stage play no part.
abbrev pub staged : State → List Call → List Call → List (Call × Result) → State
staged x a b c = record x { sending = a; selecting = b; returned = c }

pub staged-IsRouted :
    (x : State) (a b : List Call) (c : List (Call × Result))
    → IsRouted x
    → IsRouted (staged x a b c)
staged-IsRouted x a b c i = record {
  next_bound = i.next_bound;
  seq_bound = i.seq_bound;
  waiting_made = i.waiting_made;
  waiting_empty = i.waiting_empty;
  waiting_once = i.waiting_once;
  buffer_made = i.buffer_made;
}

pub staged-IsAnswerable :
    (f : IcmpFormat) (log : List Event) (x : State) (a b : List Call) (c : List (Call × Result))
    (d : Call)
    → IsAnswerable f log x d
    → IsAnswerable f log (staged x a b c) d
staged-IsAnswerable f log x a b c d h = record {
  channel_made = h.channel_made;
  own_seq = h.own_seq;
  answered = h.answered;
  begun = h.begun;
}

-- Whatever happens next is told.
pub told-IsAnswerable :
    (f : IcmpFormat) (a : Event) (log : List Event) (x : State) (c : Call)
    → IsAnswerable f log x c
    → IsAnswerable f (a ∷ log) x c
told-IsAnswerable f a log x c h = record {
  channel_made = h.channel_made;
  own_seq = h.own_seq;
  answered = λ r e. there a log (h.answered r e);
  begun = earlier a log h.begun;
}
