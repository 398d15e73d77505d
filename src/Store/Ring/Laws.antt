-- ===== src/Store/Ring/Laws.antt =====
-- A ring holds the last samples that were pushed, oldest first.
use mesh_checker.Base.{
  ℕ, suc, ◌+◌, ◌-◌, ◌%◌, ◌≤◌, ◌<◌, ◌≡◌, refl, sym, ap, ◌∙◌, inl, inr, true, List, [], ◌∷◌, ◌++◌,
  append-nil, append_assoc, arith, nat_eq, if◌then◌else◌, length, set, take, drop, replicate, copy,
  copy_at, trailing, length-append, length-set, length-take, length-drop, length-replicate,
  drop_all, take-append_length, drop-append_length, set_split, copy_split, trailing_all, Bool-cases,
  drop-append, drop-drop, dec_lt,
}
use mesh_checker.Probe.{Result, zero_result}
use mesh_checker.Store.Ring.{Ring, new_ring, push, snapshot}

-- A ring of `cap` slots whose write position is in range.
pub record IsValid (cap : ℕ) (r : Ring) : Type 0 where
  pub slots : length r.buf ≡ cap
  pub head_in : r.head < cap

-- What the two copies read: the older part behind the write position, then the newer part.
abbrev pub contents : Ring → List Result
contents r = if r.full then drop r.head r.buf ++ take r.head r.buf else take r.head r.buf

copy_at_zero : (dst src : List Result) → length src ≡ length dst → copy_at 0 dst src ≡ src
copy_at_zero dst src h =
    copy_split dst src (omega arith)
    ∙ (ap (◌++◌ src) (drop_all (length src) dst (omega arith)) ∙ append-nil src)

copy_at_rest :
    (a dst b : List Result)
    → length dst ≡ length a + length b
    → copy_at (length a) (copy_at 0 dst a) b ≡ a ++ b
copy_at_rest a dst b h =
    rw
      (
        copy_at_zero_le,
        take-append_length (length a) a rest refl,
        drop-append_length (length a) a rest refl,
      )
      (ap (◌++◌ a) (copy_at_zero rest b (omega (arith, length-drop (length a) dst))))
  where
    rest : List Result
    rest = drop (length a) dst

    copy_at_zero_le : copy dst a ≡ a ++ rest
    copy_at_zero_le = copy_split dst a (omega arith)

-- The slice that `snapshot` fills holds the two parts in order.
pub snapshot-contents : {cap : ℕ} (r : Ring) → IsValid cap r → snapshot r ≡ contents r
unfolding snapshot
snapshot-contents r v = elim (Bool-cases r.full) [
  | inl e ↦ rw e (rw tail_start (copy_at_rest (drop r.head r.buf) blank (take r.head r.buf) sizes))
  | inr e ↦ rw e (copy_at_zero (replicate r.head zero_result) (take r.head r.buf) front)
]
  where
    blank : List Result
    blank = replicate (length r.buf) zero_result

    tail_start : length r.buf - r.head ≡ length (drop r.head r.buf)
    tail_start = sym (length-drop r.head r.buf)

    sizes : length blank ≡ length (drop r.head r.buf) + length (take r.head r.buf)
    sizes = omega (
      arith,
      v.slots,
      v.head_in,
      length-replicate (length r.buf) zero_result,
      length-drop r.head r.buf,
      length-take r.head r.buf,
    )

    front : length (take r.head r.buf) ≡ length (replicate r.head zero_result)
    front =
        omega
          (arith, v.slots, v.head_in, length-replicate r.head zero_result, length-take r.head r.buf)

pub new_ring-IsValid : (n : ℕ) → 0 < n → IsValid n (new_ring n)
unfolding new_ring
new_ring-IsValid n h = record { slots = length-replicate n zero_result; head_in = h }

pub push-IsValid : {cap : ℕ} (r : Ring) (v : Result) → IsValid cap r → IsValid cap (push r v)
unfolding push
push-IsValid r v ok = record {
  slots = length-set r.buf r.head v ∙ ok.slots;
  head_in = omega (arith, ok.slots, ok.head_in);
}

-- The cells of the new buffer, split at the write position.
set_parts :
    {cap : ℕ} (r : Ring) (v : Result)
    → IsValid cap r
    → (take (suc r.head) (set r.buf r.head v) ≡ take r.head r.buf ++ (v ∷ []))
      × (drop (suc r.head) (set r.buf r.head v) ≡ drop (suc r.head) r.buf)
set_parts r v ok = (
  rw whole (take-append_length (suc r.head) front (drop (suc r.head) r.buf) sizes),
  rw whole (drop-append_length (suc r.head) front (drop (suc r.head) r.buf) sizes),
)
  where
    front : List Result
    front = take r.head r.buf ++ (v ∷ [])

    whole : set r.buf r.head v ≡ front ++ drop (suc r.head) r.buf
    whole =
        set_split r.buf r.head v (omega (arith, ok.slots, ok.head_in))
        ∙ sym (append_assoc (take r.head r.buf) (v ∷ []) (drop (suc r.head) r.buf))

    sizes : length front ≡ suc r.head
    sizes = omega (
      arith,
      ok.slots,
      ok.head_in,
      length-append (take r.head r.buf) (v ∷ []),
      length-take r.head r.buf,
    )

-- Dropping the oldest sample of a full ring makes room for the new one.
add_one : (n : ℕ) → n + 1 ≡ suc n
add_one n = omega arith

full_step :
    {cap : ℕ} (r : Ring) (v : Result)
    → IsValid cap r
    → trailing cap ((drop r.head r.buf ++ take r.head r.buf) ++ (v ∷ []))
      ≡ drop (suc r.head) r.buf ++ (take r.head r.buf ++ (v ∷ []))
full_step {cap} r v ok =
    ap (trailing cap) (append_assoc older newer (v ∷ []))
    ∙ (ap (λ k. drop k (older ++ rest)) one_over
        ∙ (drop-append 1 older rest (omega (arith, ok.slots, ok.head_in, length-drop r.head r.buf))
            ∙ ap (λ xs. xs ++ rest)
                (drop-drop 1 r.head r.buf ∙ ap (λ k. drop k r.buf) (add_one r.head))))
  where
    older : List Result
    older = drop r.head r.buf

    newer : List Result
    newer = take r.head r.buf

    rest : List Result
    rest = newer ++ (v ∷ [])

    one_over : length (older ++ rest) - cap ≡ 1
    one_over = omega (
      arith,
      ok.slots,
      ok.head_in,
      length-append older rest,
      length-append newer (v ∷ []),
      length-drop r.head r.buf,
      length-take r.head r.buf,
    )

push_inside :
    {cap : ℕ} (r : Ring) (v : Result)
    → IsValid cap r
    → suc r.head < cap
    → push r v ≡ record { buf = set r.buf r.head v; head = suc r.head; full = r.full }
unfolding push nat_eq
push_inside r v ok h =
    let e : (r.head + 1) % length r.buf ≡ suc r.head = grind (arith, ok.slots) in ground (arith, e)

push_wrap :
    {cap : ℕ} (r : Ring) (v : Result)
    → IsValid cap r
    → suc r.head ≡ cap
    → push r v ≡ record { buf = set r.buf r.head v; head = 0; full = true }
unfolding push nat_eq
push_wrap r v ok h =
    let e : (r.head + 1) % length r.buf ≡ 0 = grind (arith, ok.slots) in ground (arith, e)

nothing_left :
    {cap : ℕ} (r : Ring) → IsValid cap r → suc r.head ≡ cap → drop (suc r.head) r.buf ≡ []
nothing_left r ok h = drop_all (suc r.head) r.buf (omega (arith, ok.slots))

set_last :
    {cap : ℕ} (r : Ring) (v : Result)
    → IsValid cap r
    → suc r.head ≡ cap
    → set r.buf r.head v ≡ take r.head r.buf ++ (v ∷ [])
set_last r v ok h =
    set_split r.buf r.head v (omega (arith, ok.slots, ok.head_in))
    ∙ ap (λ xs. take r.head r.buf ++ (v ∷ xs)) (nothing_left r ok h)

-- A push appends the sample, and forgets the oldest one where there is no room.
pub contents-push :
    {cap : ℕ} (r : Ring) (v : Result)
    → IsValid cap r
    → contents (push r v) ≡ trailing cap (contents r ++ (v ∷ []))
contents-push {cap} r v ok = elim (dec_lt (suc r.head) cap) [
  | yes h ↦
      rw (push_inside r v ok h, (set_parts r v ok).0, (set_parts r v ok).1)
        (ground (arith, full_step r v ok, fits))
  | no n ↦
      let last : suc r.head ≡ cap = omega (arith, ok.head_in) in
      rw (push_wrap r v ok last, append-nil, set_last r v ok last)
        (ground (arith, full_step r v ok, fits, nothing_left r ok last))
]
  where
    fits : trailing cap (take r.head r.buf ++ (v ∷ [])) ≡ take r.head r.buf ++ (v ∷ [])
    fits = trailing_all cap (take r.head r.buf ++ (v ∷ [])) (
        omega
          (arith, ok.head_in, length-append (take r.head r.buf) (v ∷ []), length-take r.head r.buf))

pub contents-new_ring : (n : ℕ) → contents (new_ring n) ≡ []
unfolding new_ring
contents-new_ring n = refl

pub length-contents : {cap : ℕ} (r : Ring) → IsValid cap r → length (contents r) ≤ cap
length-contents r ok = elim (Bool-cases r.full) [
  | inl e ↦ rw e (
      omega (
        arith,
        ok.slots,
        ok.head_in,
        length-append (drop r.head r.buf) (take r.head r.buf),
        length-drop r.head r.buf,
        length-take r.head r.buf,
      ))
  | inr e ↦ rw e (omega (arith, ok.head_in, length-take r.head r.buf))
]
