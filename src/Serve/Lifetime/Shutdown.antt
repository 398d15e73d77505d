-- ===== src/Serve/Lifetime/Shutdown.antt =====
-- When a node ends.
use mesh_checker.Base.{
  ◌+◌, ◌<◌, ◌≡◌, refl, ap, true, List, [], ◌∷◌, ◌++◌, length, length-append, arith,
}
use mesh_checker.Serve.Lifetime.{
  Server, sent_error, error_slots, State, Step, ends, cancels, returns, Reaches, begin, after,
}

-- Each of the four servers serves or has sent its error, and a return comes after the end of the
-- context.
record IsLive (x : State) : Type 0 where
  all_told : length x.serving + length x.errors ≡ error_slots
  in_time : x.returned ≡ true → x.cancelled ≡ true

Step-IsLive : {x y : State} → Step x y → IsLive x → IsLive y
Step-IsLive (ends x front back s e here room) i = record {
  all_told = omega (
    arith,
    ap length here,
    length-append front (s ∷ back),
    length-append front back,
    length-append x.errors (sent_error s e ∷ []),
    i.all_told,
  );
  in_time = i.in_time;
}
Step-IsLive (cancels x) i = record { all_told = i.all_told; in_time = λ h. refl }
Step-IsLive (returns x stopped waits) i = record { all_told = i.all_told; in_time = λ h. stopped }

Reaches-IsLive : {x : State} → Reaches x → IsLive x
Reaches-IsLive begin = record { all_told = refl; in_time = λ h. cc }
Reaches-IsLive (after x y reached step) = Step-IsLive step (Reaches-IsLive reached)

-- In every state of a run, a server that ends finds a free slot in the channel, so its goroutine
-- never blocks although nothing reads the errors.
pub errors-Reaches :
    (x : State) (front back : List Server) (s : Server)
    → Reaches x
    → x.serving ≡ front ++ (s ∷ back)
    → length x.errors < error_slots
errors-Reaches x front back s reached here =
    omega (arith, ap length here, length-append front (s ∷ back), (Reaches-IsLive reached).all_told)

-- A node returns only after its context has ended, whatever its servers have done.
pub returned-Reaches : (x : State) → Reaches x → x.returned ≡ true → x.cancelled ≡ true
returned-Reaches x reached h = (Reaches-IsLive reached).in_time h
