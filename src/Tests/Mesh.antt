-- ===== src/Tests/Mesh.antt =====
-- The theorems on probes and on the echo server, at concrete inputs.
use mesh_checker.Base.{
  ◌≡◌, refl, ◌↔◌, Bool, true, none, some, [], ◌∷◌, Text, text_eq, nat_eq, codes, replicate, All,
  Fallible, ok, err, length, ◌<◌, arith, ◌==◌, if◌then◌else◌, ◌&&◌, not,
}
use mesh_checker.Base.Int.{ℤ, pos, ◌-ℤ◌, ◌+ℤ◌, to_uint64, to_int64}
use mesh_checker.Base.Dict
use mesh_checker.Base.Dict.{Dict, Distinct, contains}
use mesh_checker.Probe.{Target}
use mesh_checker.Store.{key_eq}
use mesh_checker.Udp.Payload.Bytes.{put_uint64, be_uint64}
use mesh_checker.Udp.Payload.{
  PayloadError, Request, encode_request, decode_request, encode_response, decode_response,
  too_short, wrong_length,
}
use mesh_checker.Udp.Payload.Laws.{
  IsUnixNano, encode_request-decode_request, decode_request-encode_request,
}
use mesh_checker.Udp.Payload.Responses.{kinds_apart}
use mesh_checker.Udp.Replay.{new_replay_cache, ReplayCache, seen_or_add}
use mesh_checker.Udp.Replay.Laws.{IsCache, fresh, is_some, seen_or_add_lem}
use mesh_checker.Udp.Prober.{Prober, probe}
use mesh_checker.Echo.{UdpEcho, sub_time, received, new_udp_echo, handle, run}
use mesh_checker.Echo.Replies.{Answers, handle-Answers}
use mesh_checker.Echo.Once.{server_after, answered_once}
use mesh_checker.Echo.Exchange.{wire, probe-handle}
use mesh_checker.Tests.Instances.{checksums}

abbrev secret : Text
secret = replicate 32 7

abbrev nonce_a : Text
nonce_a = replicate 16 1

abbrev nonce_b : Text
nonce_b = replicate 16 2

abbrev at_10s : ℤ
at_10s = pos 10000000000

abbrev at_12s : ℤ
at_12s = pos 12000000000

abbrev node_a : Text
node_a = codes "10.0.0.1"

abbrev allowed : Dict Text Bool
allowed = (node_a, true) ∷ []

abbrev packet_of : Fallible PayloadError Text → Text
packet_of (ok b) = b
packet_of (err e) = []

abbrev request_a : Text
request_a = packet_of (encode_request checksums secret nonce_a at_10s (codes "a"))

abbrev request_b : Text
request_b = packet_of (encode_request checksums secret nonce_b at_10s (codes "b"))

abbrev reply_a : Text
reply_a = packet_of (encode_response checksums secret nonce_a at_10s)

abbrev server_a : UdpEcho
server_a = server_after checksums secret allowed []

sent_a : (handle checksums server_a request_a (some node_a) at_10s).1 ≡ some reply_a
unfolding new_udp_echo handle run encode_request encode_response decode_request seen_or_add text_eq
    nat_eq Dict.lookup put_uint64 to_uint64 sub_time ◌-ℤ◌ to_int64 be_uint64 new_replay_cache
sent_a = refl

-- Another packet in between, and the first packet again two seconds later.
answered_once_example :
    (handle checksums
      (run checksums
        (handle checksums server_a request_a (some node_a) at_10s).0
        (received request_b (some node_a) at_12s ∷ [])).0
      request_a
      (some node_a)
      at_12s).1
    ≡ none
answered_once_example =
    answered_once checksums secret allowed [] (received request_b (some node_a) at_12s ∷ [])
      request_a (some node_a) (some node_a) at_10s at_12s reply_a sent_a (omega arith, tt)

handle-Answers_example :
    ((handle checksums server_a request_a (some node_a) at_10s).1 ≡ some reply_a)
    ↔ Answers checksums server_a request_a (some node_a) at_10s reply_a
unfolding new_udp_echo run
handle-Answers_example =
    handle-Answers checksums server_a request_a (some node_a) at_10s reply_a refl

encoded_a : encode_request checksums secret nonce_a at_10s (codes "a") ≡ ok request_a
unfolding encode_request
encoded_a = refl

abbrev read_a : Request
read_a = record { nonce = nonce_a; timestamp = at_10s; host_name = codes "a" }

decode_request-encode_request_example : decode_request checksums secret request_a ≡ ok read_a
decode_request-encode_request_example =
    decode_request-encode_request checksums secret nonce_a at_10s (codes "a") refl
      (omega arith, omega arith) encoded_a

request_a-bytes : All (λ x. x < 256) request_a
unfolding encode_request put_uint64 to_uint64
request_a-bytes = ground arith

decoded_a : decode_request checksums secret request_a ≡ ok read_a
unfolding encode_request decode_request text_eq nat_eq put_uint64 to_uint64 to_int64 be_uint64
decoded_a = refl

encode_request-decode_request_example :
    (encode_request checksums secret nonce_a at_10s (codes "a") ≡ ok request_a)
    × (length nonce_a ≡ 16)
    × IsUnixNano at_10s
encode_request-decode_request_example =
    encode_request-decode_request checksums secret request_a request_a-bytes decoded_a

encoded_reply : encode_response checksums secret nonce_a at_10s ≡ ok reply_a
unfolding encode_response
encoded_reply = refl

kinds_apart_example :
    (length reply_a < length request_a)
    × (decode_request checksums secret reply_a ≡ err too_short)
    × (decode_response checksums secret request_a ≡ err wrong_length)
kinds_apart_example =
    kinds_apart checksums secret secret nonce_a nonce_a at_10s at_10s (codes "a") refl refl
      encoded_a encoded_reply

abbrev prober_a : Prober
prober_a = record { secret = secret; host_name = codes "a"; timeout = pos 3000000000 }

abbrev target_b : Target
target_b = record {
  name = codes "b";
  addr = codes "10.0.0.2";
  tcp_port = pos 0;
  udp_port = pos 7100;
  https_url = [];
}

probe-handle_example :
    (probe checksums prober_a
      (wire checksums server_a node_a at_12s nonce_a (pos 5000))
      at_10s
      target_b).is_ok
    ≡ true
unfolding new_udp_echo run seen_or_add new_replay_cache Dict.lookup text_eq ◌+ℤ◌
probe-handle_example =
    probe-handle checksums prober_a server_a node_a at_10s at_12s nonce_a (pos 5000) target_b refl
      refl refl (omega arith, omega arith) (omega arith, omega arith) (omega arith, omega arith)
      refl refl (omega arith) (omega arith)

-- One nonce that is a second old, and one that is too old.
abbrev cache_ab : ReplayCache
cache_ab = record {
  ttl = pos 5000000000;
  seen = (nonce_a, pos 11000000000) ∷ (nonce_b, pos 1) ∷ [];
}

cache_ab-IsCache : IsCache cache_ab
unfolding Dict.keys text_eq nat_eq
cache_ab-IsCache = (refl, (refl, tt))

seen_or_add_lem_example :
    let cutoff = at_12s -ℤ cache_ab.ttl in
    let (c', seen) = seen_or_add cache_ab nonce_b at_12s in
    (seen ≡ is_some (fresh cutoff (Dict.lookup nonce_b cache_ab.seen)))
    × ((m : Text)
        → Dict.lookup m c'.seen ≡ (
            if m == nonce_b && not seen
            then some at_12s
            else fresh cutoff (Dict.lookup m cache_ab.seen)))
    × (c'.ttl ≡ cache_ab.ttl)
    × IsCache c'
seen_or_add_lem_example = seen_or_add_lem cache_ab nonce_b at_12s cache_ab-IsCache
