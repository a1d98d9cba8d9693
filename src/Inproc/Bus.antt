-- ===== src/Inproc/Bus.antt =====
-- internal/infra/inproc/bus.go: the broker's state and operations. A channel is a number, and `next`
-- is the number of the channel that `make` creates next. The mutex makes each operation one step.
pub mod Channels
pub mod Delivery
use respondent_community.Common.{
  ℕ, zero, suc, ◌+◌, String, Bool, true, false, Option, none, some, List, [], ◌∷◌, ◌++◌, map,
  contains, erase, nat_eq, length, select, if◌then◌else◌, eqb, bytes_eq,
}
use respondent_community.Common.Dict
use respondent_community.Common.Dict.{Dict}
use respondent_community.Common.MultiMap
use respondent_community.Inproc.Subject.{Bytes, is_wildcard, subject_matches}

pub record WildcardSub : Type 0 where
  pub filter : Bytes
  pub ch : ℕ

pub record Bus : Type 0 where
  pub exact : Dict Bytes (List ℕ)
  pub wildcard : List WildcardSub
  pub buffer_size : ℕ
  pub next : ℕ

unfoldable pub new_bus : ℕ → Bus
new_bus buffer_size = record { exact = []; wildcard = []; buffer_size = buffer_size; next = 0 }

unfoldable pub subscribe : Bus → Bytes → Bus × ℕ
subscribe b filter =
    let ch = b.next in
    if is_wildcard filter
    then (
      record b { wildcard = b.wildcard ++ record { filter = filter; ch = ch } ∷ []; next = suc ch },
      ch,
    )
    else (
      record b {
        exact = Dict.put filter (MultiMap.values filter b.exact ++ ch ∷ []) b.exact;
        next = suc ch;
      },
      ch,
    )

unfoldable pub erase_wildcard : ℕ → List WildcardSub → List WildcardSub
erase_wildcard ch [] = []
erase_wildcard ch (w ∷ ws) = if eqb w.ch ch then ws else w ∷ erase_wildcard ch ws

unfoldable pub unsubscribe : Bus → Bytes → ℕ → Bus
unsubscribe b filter ch =
    if is_wildcard filter
    then record b { wildcard = erase_wildcard ch b.wildcard }
    else record b { exact = MultiMap.remove_value filter ch b.exact }

unfoldable pub wildcard_targets : Bytes → List WildcardSub → List ℕ
wildcard_targets subject [] = []
wildcard_targets subject (w ∷ ws) =
    if subject_matches w.filter subject
    then w.ch ∷ wildcard_targets subject ws
    else wildcard_targets subject ws

-- The channels that `publish` collects under the read lock.
unfoldable pub targets : Bus → Bytes → List ℕ
targets b subject = MultiMap.values subject b.exact ++ wildcard_targets subject b.wildcard

pub data PublishResult : Type 0 where
  published canceled : PublishResult

-- The send loop. `sends i` is the case that the i-th `select` takes: true for the send, which
-- waits while the channel's buffer is full, and false for `ctx.Done()`.
unfoldable pub send_all : (ℕ → Bool) → ℕ → List ℕ → List ℕ × PublishResult
send_all sends i [] = ([], published)
send_all sends i (ch ∷ chs) =
    let (sent, result) = send_all sends (suc i) chs in
    if sends i then (ch ∷ sent, result) else ([], canceled)

-- The channels that got the message, in order, and the result.
unfoldable pub publish : Bus → Bytes → (ℕ → Bool) → List ℕ × PublishResult
unfolding targets send_all wildcard_targets
publish b subject sends = send_all sends 0 (targets b subject)
