-- ===== src/Inproc/Bus/Delivery.antt =====
-- Who receives a message: the subscribers whose filter matches, as `subscribe` and `unsubscribe`
-- change them, and how far `publish` gets down the list of them.
use respondent_community.Common.{
  ℕ, zero, suc, ◌+◌, ◌≤◌, ◌<◌, ◌≡◌, ◌≢◌, refl, ap, ◌∙◌, ◌&&◌, Bool, true, false, List, [], ◌∷◌,
  ◌++◌, arith, All, length, take, if◌then◌else◌, eqb, bytes_eq, bytes_beq, bytes_beq_iff,
  Bool-cases, inl, inr, count, count-append, count-erase, erase-append_new, nat_eq,
}
use respondent_community.Common.Dict
use respondent_community.Common.MultiMap.{values, values-put, values-remove_value}
use respondent_community.Inproc.Subject.{Bytes, is_wildcard, subject_matches}
use respondent_community.Inproc.Subject.Exact.{subject_matches-plain}
use respondent_community.Inproc.Bus.{
  Bus, WildcardSub, erase_wildcard, subscribe, unsubscribe, targets, publish, send_all, published,
  canceled, new_bus,
}
use respondent_community.Inproc.Bus.Channels.{
  count-wildcard_targets-append, count-wildcard_targets-erase_ne,
}

matches_self : (f : Bytes) → subject_matches f f ≡ true
unfolding subject_matches
matches_self f = ground (arith, bytes_beq_iff f f)

-- For a filter without wildcards, being the key is matching.
plain_key : (f s : Bytes) → is_wildcard f ≡ false → bytes_beq f s ≡ subject_matches f s
plain_key f s plain = elim (Bool-cases (subject_matches f s)) [
  | inl h ↦ ground (arith, bytes_beq_iff f s, subject_matches-plain f s plain h)
  | inr h ↦ ground (arith, bytes_beq_iff f s, matches_self f, ap (subject_matches f))
]

-- A new subscription adds its channel, once, to the targets of the subjects that its filter
-- matches, and changes nothing else about any subject.
pub count-targets-subscribe :
    (b : Bus) (f s : Bytes) (c : ℕ)
    → count c (targets (subscribe b f).0 s)
      ≡ count c (targets b s) + (if subject_matches f s && eqb (subscribe b f).1 c then 1 else 0)
unfolding targets subscribe
count-targets-subscribe b f s c = elim (Bool-cases (is_wildcard f)) [
  | inl wild ↦ rw (wild, count-append, count-append, count-wildcard_targets-append) (omega arith)
  | inr plain ↦
      rw (plain, count-append, count-append, values-put, ← plain_key f s plain)
        (ground (
          arith,
          bytes_beq_iff f s,
          count-append c (values f b.exact) (b.next ∷ []),
          ap (λ (k : Bytes). count c (values k b.exact)),
        ))
]

-- Removing a subscription leaves every other channel where it was.
pub count-targets-unsubscribe_ne :
    (b : Bus) (f s : Bytes) (ch c : ℕ)
    → c ≢ ch
    → count c (targets (unsubscribe b f ch) s) ≡ count c (targets b s)
unfolding targets unsubscribe
count-targets-unsubscribe_ne b f s ch c n = elim (Bool-cases (is_wildcard f)) [
  | inl wild ↦
      rw (wild, count-append, count-append, count-wildcard_targets-erase_ne c ch s b.wildcard n)
  | inr plain ↦
      rw (plain, count-append, count-append, values-remove_value)
        (ground (
          arith,
          bytes_beq_iff f s,
          count-erase c ch (values f b.exact),
          ap (λ (k : Bytes). count c (values k b.exact)),
        ))
]

-- Every listed channel was created before `next`.
pub record IsFresh (b : Bus) : Type 0 where
  pub exact_old : (s : Bytes) (c : ℕ) → b.next ≤ c → count c (values s b.exact) ≡ 0
  pub wildcard_old : All (λ (w : WildcardSub). w.ch < b.next) b.wildcard

pub new_bus-IsFresh : (n : ℕ) → IsFresh (new_bus n)
unfolding new_bus Dict.get
new_bus-IsFresh n = record { exact_old = λ s c h. refl; wildcard_old = tt }

All-old :
    (n m : ℕ) (ws : List WildcardSub) (w : WildcardSub)
    → n ≤ m
    → w.ch < m
    → All (λ (v : WildcardSub). v.ch < n) ws
    → All (λ (v : WildcardSub). v.ch < m) (ws ++ w ∷ [])
All-old n m [] w h k a = (k, tt)
All-old n m (v ∷ ws) w h k a = (omega arith, All-old n m ws w h k a.1)

All-later :
    (n m : ℕ) (ws : List WildcardSub)
    → n ≤ m
    → All (λ (v : WildcardSub). v.ch < n) ws
    → All (λ (v : WildcardSub). v.ch < m) ws
All-later n m [] h a = tt
All-later n m (v ∷ ws) h a = (omega arith, All-later n m ws h a.1)

All-erase_wildcard :
    (n ch : ℕ) (ws : List WildcardSub)
    → All (λ (v : WildcardSub). v.ch < n) ws
    → All (λ (v : WildcardSub). v.ch < n) (erase_wildcard ch ws)
unfolding erase_wildcard
All-erase_wildcard n ch [] a = tt
All-erase_wildcard n ch (v ∷ ws) a = elim (Bool-cases (eqb v.ch ch)) [
  | inl h ↦ rw h a.1
  | inr h ↦ rw h (a.0, All-erase_wildcard n ch ws a.1)
]

count-one_ne : (n c : ℕ) → suc n ≤ c → count c (n ∷ []) ≡ 0
count-one_ne n c h = ground arith

-- Subscribing to a fresh broker, one in which every channel was handed out before, leaves a fresh
-- broker.
pub subscribe-IsFresh : (b : Bus) (f : Bytes) → IsFresh b → IsFresh (subscribe b f).0
unfolding subscribe
subscribe-IsFresh b f v = elim (Bool-cases (is_wildcard f)) [
  | inl wild ↦ rw wild (record {
    exact_old = λ s c h. v.exact_old s c (omega arith);
    wildcard_old =
        All-old b.next (suc b.next) b.wildcard _ (omega arith) (omega arith) v.wildcard_old;
  })
  | inr plain ↦ rw plain (record {
    exact_old = λ s c h. rw values-put (
        ground (
          arith,
          v.exact_old s c (omega arith),
          v.exact_old f c (omega arith),
          count-append c (values f b.exact) (b.next ∷ []),
        ));
    wildcard_old = All-later b.next (suc b.next) b.wildcard (omega arith) v.wildcard_old;
  })
]

-- Giving a subscription back to a fresh broker, of whatever filter and channel, leaves a fresh
-- broker.
pub unsubscribe-IsFresh : (b : Bus) (f : Bytes) (ch : ℕ) → IsFresh b → IsFresh (unsubscribe b f ch)
unfolding unsubscribe
unsubscribe-IsFresh b f ch v = elim (Bool-cases (is_wildcard f)) [
  | inl wild ↦ rw wild (record {
    exact_old = v.exact_old;
    wildcard_old = All-erase_wildcard b.next ch b.wildcard v.wildcard_old;
  })
  | inr plain ↦ rw plain (record {
    exact_old = λ s c h.
        rw values-remove_value (
          ground
            (arith, v.exact_old s c h, v.exact_old f c h, count-erase c ch (values f b.exact)));
    wildcard_old = v.wildcard_old;
  })
]

erase_wildcard-append_new :
    (w : WildcardSub) (ws : List WildcardSub)
    → All (λ (v : WildcardSub). v.ch < w.ch) ws
    → erase_wildcard w.ch (ws ++ w ∷ []) ≡ ws
unfolding erase_wildcard
erase_wildcard-append_new w [] a = ground arith
erase_wildcard-append_new w (v ∷ ws) a = ground (arith, erase_wildcard-append_new w ws a.1)

-- Subscribing and then giving the subscription back leaves the targets of every subject as they
-- were.
pub targets-unsubscribe-subscribe :
    (b : Bus) (f s : Bytes)
    → IsFresh b
    → targets (unsubscribe (subscribe b f).0 f (subscribe b f).1) s ≡ targets b s
unfolding targets subscribe unsubscribe
targets-unsubscribe-subscribe b f s v = elim (Bool-cases (is_wildcard f)) [
  | inl wild ↦ rw (
    wild,
    erase_wildcard-append_new (record { filter = f; ch = b.next }) b.wildcard v.wildcard_old,
  )
  | inr plain ↦
      rw (plain, values-remove_value)
        (ground (
          arith,
          bytes_beq_iff f s,
          bytes_beq_iff f f,
          values-put f f (values f b.exact ++ b.next ∷ []) b.exact,
          values-put f s (values f b.exact ++ b.next ∷ []) b.exact,
          erase-append_new b.next (values f b.exact) (v.exact_old f b.next (omega arith)),
          ap (λ (k : Bytes). values k b.exact),
        ))
]

first_index : (i : ℕ) (sends : ℕ → Bool) → sends i ≡ sends (i + 0)
first_index i sends = ap sends (omega arith)

next_index : (i k : ℕ) (sends : ℕ → Bool) → sends (suc i + k) ≡ sends (i + suc k)
next_index i k sends = ap sends (omega arith)

next_zero : (k : ℕ) (sends : ℕ → Bool) → sends (0 + k) ≡ sends k
next_zero k sends = ap sends (omega arith)

send_all_complete :
    (sends : ℕ → Bool) (i : ℕ) (chs : List ℕ)
    → ((k : ℕ) → k < length chs → sends (i + k) ≡ true)
    → send_all sends i chs ≡ (chs, published)
unfolding send_all
send_all_complete sends i [] h = refl
send_all_complete sends i (c ∷ cs) h = rw (
  first_index i sends ∙ h 0 (omega arith),
  send_all_complete sends (suc i) cs (λ k lt. next_index i k sends ∙ h (suc k) (omega arith)),
)

send_all-canceled :
    (sends : ℕ → Bool) (i n : ℕ) (chs : List ℕ)
    → n < length chs
    → ((k : ℕ) → k < n → sends (i + k) ≡ true)
    → sends (i + n) ≡ false
    → send_all sends i chs ≡ (take n chs, canceled)
unfolding send_all
send_all-canceled sends i n [] l h stop = absurd (omega arith)
send_all-canceled sends i zero (c ∷ cs) l h stop = rw (first_index i sends ∙ stop)
send_all-canceled sends i (suc n) (c ∷ cs) l h stop = rw (
  first_index i sends ∙ h 0 (omega arith),
  send_all-canceled sends (suc i) n cs (omega arith)
      (λ k lt. next_index i k sends ∙ h (suc k) (omega arith)) (next_index i n sends ∙ stop),
)

-- A publication in which every wait ends with a send reaches all the targets, in order, and
-- succeeds.
pub publish_complete :
    (b : Bus) (s : Bytes) (sends : ℕ → Bool)
    → ((k : ℕ) → k < length (targets b s) → sends k ≡ true)
    → publish b s sends ≡ (targets b s, published)
unfolding publish
publish_complete b s sends h =
    send_all_complete sends 0 (targets b s) (λ k lt. next_zero k sends ∙ h k lt)

-- A publication whose wait for the target number `n` ends with the context has reached the targets
-- before it, and none after it, and reports the cancellation.
pub publish-canceled :
    (b : Bus) (s : Bytes) (sends : ℕ → Bool) (n : ℕ)
    → n < length (targets b s)
    → ((k : ℕ) → k < n → sends k ≡ true)
    → sends n ≡ false
    → publish b s sends ≡ (take n (targets b s), canceled)
unfolding publish
publish-canceled b s sends n l h stop =
    send_all-canceled sends 0 n (targets b s) l (λ k lt. next_zero k sends ∙ h k lt)
      (next_zero n sends ∙ stop)
