-- ===== src/Icmp/Received.antt =====
-- What the read loop makes of a datagram: it never blocks, and the map and the channels keep what
-- holds of them.
use mesh_checker.Base.{
  ℕ, ◌≡◌, refl, List, ◌∷◌, some, Text, ok, nat_eq, take, inl, inr, Fallible-cases, Option-cases,
}
use mesh_checker.Base.Dict.{lookup}
use mesh_checker.Probe.{Time, Result}
use mesh_checker.Icmp.{
  Echo, IcmpFormat, parse_echo_reply, Event, read, Call, State, deliver, alive, receive,
}
use mesh_checker.Icmp.Routes.{
  here, IsRouted, IsAnswerable, forget, forget-IsRouted, forget-IsAnswerable, routed_to,
  routed_to-IsRouted, routed_to-IsAnswerable, told-IsAnswerable,
}

-- What the loop makes of a datagram.
pub data Received (f : IcmpFormat) (x : State) (b : Text) : State → Type 0 where
  ignored : Received f x b x
  unasked : (e : Echo) → Received f x b (forget x e.seq)
  answers :
      (e : Echo) (ch : ℕ) (r : Result)
      → parse_echo_reply f (take 1500 b) ≡ ok e
      → lookup e.seq x.pending ≡ some ch
      → Received f x b (routed_to x e.seq ch r)

pub received :
    (f : IcmpFormat) (x : State) (now : Time) (b : Text)
    → IsRouted x
    → (y : State) × (receive f x now b ≡ some y) × Received f x b y
unfolding receive deliver
received f x now b i = elim (Fallible-cases (parse_echo_reply f (take 1500 b))) [
  | inl (e, p) ↦ (x, rw (receive, p) refl, ignored)
  | inr (e, p) ↦ elim (Option-cases (lookup e.seq x.pending)) [
    | inl q ↦ (forget x e.seq, rw (receive, p, deliver, q) refl, unasked e)
    | inr (ch, q) ↦ (
      routed_to x e.seq ch (alive now),
      rw (receive, p, deliver, q, i.waiting_empty e.seq ch q) refl,
      answers e ch (alive now) p q,
    )
  ]
]

pub received-IsRouted :
    (f : IcmpFormat) (x y : State) (b : Text) → Received f x b y → IsRouted x → IsRouted y
received-IsRouted f x _ b ignored i = i
received-IsRouted f x _ b (unasked e) i = forget-IsRouted x e.seq i
received-IsRouted f x _ b (answers e ch r p waits) i = routed_to-IsRouted x e.seq ch r waits i

pub received-IsAnswerable :
    (f : IcmpFormat) (log : List Event) (x y : State) (b : Text) (c : Call)
    → Received f x b y
    → IsAnswerable f log x c
    → IsAnswerable f (read b ∷ log) y c
received-IsAnswerable f log x _ b c ignored a = told-IsAnswerable f (read b) log x c a
received-IsAnswerable f log x _ b c (unasked e) a =
    forget-IsAnswerable f (read b ∷ log) x e.seq c (told-IsAnswerable f (read b) log x c a)
received-IsAnswerable f log x _ b c (answers e ch r p waits) a =
    routed_to-IsAnswerable f (read b ∷ log) x e.seq ch r c waits
      (λ same. here b e log p same a.begun) (told-IsAnswerable f (read b) log x c a)
