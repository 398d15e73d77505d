-- ===== src/Tests/Access.antt =====
-- The theorems on the login, the routes, the nodes' API and the scheduler, at concrete inputs.
use mathlib.Core.List.{cons-ne-nil}
use mesh_checker.Store.History.{keys-append_all}
use mesh_checker.Base.{
  ℕ, ◌+◌, ◌≡◌, ◌≢◌, refl, ◌↔◌, ◌⊎◌, inl, inr, Bool, true, false, Option, none, some, List, [], ◌∷◌,
  ◌++◌, Text, text_eq, nat_eq, codes, replicate, All, Fallible, ok, err, length, ◌<◌, ◌≤◌, arith,
  ◌==◌, if◌then◌else◌, ◌||◌,
}
use mesh_checker.Base.Int.{ℤ, pos, ◌+ℤ◌, leb_ℤ, ◌≤ℤ◌, ◌<ℤ◌}
use mesh_checker.Base.Dict.{contains}
use mesh_checker.Probe.{Result, udp}
use mesh_checker.Store.{Key, key_eq, new, append, keys}
use mesh_checker.Ui.Session.{expired, unix, issue, verify, has_forbidden}
use mesh_checker.Ui.Http.{Request, Response, has_prefix}
use mesh_checker.Ui.Login.{login}
use mesh_checker.Ui.Login.Laws.{LoggedIn, login-LoggedIn, verify-login}
use mesh_checker.Ui.Mux.{Deps, new_mux, with_common_headers}
use mesh_checker.Ui.Mux.Laws.{IsGuarded, guarded, guarded_handler, new_mux-guarded}
use mesh_checker.Serve.{must_probers, build_jobs, peer_names}
use mesh_checker.Scheduler.{Job, Scheduler, State, start, tick, take, finish, Reaches, begin, after}
use mesh_checker.Scheduler.Next.{next, delta}
use mesh_checker.Scheduler.Runs.{IsRun, job_keys, Reaches-IsRun, keys-Reaches}
use mesh_checker.Tests.Instances.{checksums, plain64}
use mesh_checker.Tests.Nodes.{peer_b, user_ann, session_a, token_ann}

abbrev matches_hash : Text → Text → Bool
matches_hash hash password = hash == codes "hash"

abbrev login_request : Request
login_request = record {
  method = codes "POST";
  path = codes "/ui/login";
  accept = [];
  cookie = none;
  form = ok (codes "ann", codes "pw");
  mesh_user = [];
}

logged_in :
    (login matches_hash checksums plain64 session_a
      (user_ann ∷ [])
      login_request
      (pos 5000000000)).cookie
    ≡ some token_ann
unfolding login issue has_forbidden nat_eq text_eq mesh_checker.Ui.Login.authenticate
logged_in = refl

login-LoggedIn_example :
    LoggedIn matches_hash checksums plain64 session_a
      (user_ann ∷ [])
      login_request
      (pos 5000000000)
      token_ann
login-LoggedIn_example =
    login-LoggedIn matches_hash checksums plain64 session_a (user_ann ∷ []) login_request
      (pos 5000000000) logged_in

verify-login_example :
    verify checksums plain64 session_a token_ann (pos 4000000000000) ≡ err expired
unfolding unix mesh_checker.Base.Int.floor_div ◌+ℤ◌
verify-login_example =
    verify-login matches_hash checksums plain64 session_a (user_ann ∷ []) login_request
      (pos 5000000000) (pos 4000000000000) (codes "ann") (codes "pw") refl (omega arith)
      (omega arith) (omega arith) logged_in

abbrev pub status_request : Request
status_request = record {
  method = codes "GET";
  path = codes "/ui/sse/status";
  accept = codes "text/event-stream";
  cookie = some token_ann;
  form = err [];
  mesh_user = [];
}

abbrev pub page_of : Text → Response
page_of user = record { status = 200; headers = []; cookie = none; body = user }

abbrev pub deps_a : Deps
deps_a = record {
  login = none;
  sse = some (λ r now. page_of r.mesh_user);
  session = some session_a;
}

sse-IsGuarded : IsGuarded (codes "/ui/sse/status")
unfolding has_prefix text_eq nat_eq
sse-IsGuarded = record { below = refl; no_login = refl; no_logout = refl; no_asset = refl }

new_mux-guarded_example :
    new_mux checksums plain64 (λ name. none) (codes "dev") deps_a status_request (pos 9000000000)
    ≡ with_common_headers
        (guarded checksums plain64 deps_a.session (
          guarded_handler checksums plain64
            (λ name. none)
            (codes "dev")
            deps_a.sse
            status_request.path))
        status_request
        (pos 9000000000)
new_mux-guarded_example =
    new_mux-guarded checksums plain64 (λ name. none) (codes "dev") deps_a status_request
      (pos 9000000000) sse-IsGuarded

abbrev pub job_b : Job ℕ
job_b = record {
  peer = codes "b";
  protocol = udp;
  target = mesh_checker.Serve.target_of peer_b;
  prober = 3;
}

abbrev pub scheduler_a : Scheduler ℕ
scheduler_a = record {
  cfg = record { interval = pos 1; jitter_percent = pos 0; workers = pos 4; timeout = pos 1 };
  jobs = job_b ∷ [];
  store = new (pos 2);
}

abbrev probed : Result
probed = record { timestamp = pos 7; latency = pos 1; is_ok = true; error = [] }

abbrev queued_state : State ℕ
queued_state = record {
  queue = job_b ∷ [];
  running = [];
  store = new (pos 2);
  workers = 4;
  tickers = job_b ∷ [];
  cancelled = false;
  closed = false;
}

abbrev taken_state : State ℕ
taken_state = record queued_state { queue = []; running = job_b ∷ [] }

abbrev finished_state : State ℕ
finished_state = record taken_state {
  running = [];
  store = append (new (pos 2)) (codes "b") udp probed;
}

-- One tick, one worker that takes the job, and its result.
finished-Reaches : Reaches scheduler_a finished_state
unfolding start next delta
finished-Reaches =
    after taken_state finished_state
      (after queued_state taken_state
        (after (start scheduler_a) queued_state begin
          (tick (start scheduler_a) [] [] job_b (λ n. pos 0) (pos 1) refl refl (omega arith)))
        (take queued_state [] job_b refl (omega arith)))
      (finish taken_state [] [] job_b probed refl)

Reaches-IsRun_example : IsRun scheduler_a finished_state
Reaches-IsRun_example = Reaches-IsRun scheduler_a finished-Reaches

abbrev key_b : Key
key_b = record { peer = codes "b"; protocol = udp }

key_b-stored : contains key_b (keys finished_state.store) ≡ true
unfolding key_eq text_eq nat_eq
key_b-stored =
    ((keys-append_all (pos 2) (record { key = key_b; sample = probed } ∷ [])).1 key_b).1
      (cons-ne-nil probed [])

keys-Reaches_example : contains key_b (job_keys scheduler_a scheduler_a.jobs) ≡ true
keys-Reaches_example = keys-Reaches scheduler_a (pos 2) key_b refl finished-Reaches key_b-stored
