-- ===== src/Tests/Inproc.antt =====
-- The broker on a few subjects.
use respondent_community.Common.{◌≡◌, ◌↔◌, ◌⊎◌, refl, true, [], ◌∷◌, nat_eq, length}
use respondent_community.Inproc.Subject.{
  Bytes, split, subject_matches, Matches, subject_matches_iff, is_wildcard, ends_in_tail, has_star,
  match_tokens,
}
use respondent_community.Common.Dict
use respondent_community.Inproc.Bus.{
  Bus, wildcard_targets, new_bus, subscribe, unsubscribe, targets,
}
use respondent_community.Inproc.Bus.Delivery.{
  IsFresh, new_bus-IsFresh, subscribe-IsFresh, targets-unsubscribe-subscribe,
}
use respondent_community.Inproc.Consumer.{ConsumerConfig}

-- "a.b", "a.>" and "a.*"
abbrev subject : Bytes
subject = b'a' ∷ b'.' ∷ b'b' ∷ []

abbrev below : Bytes
below = b'a' ∷ b'.' ∷ b'>' ∷ []

abbrev one_below : Bytes
one_below = b'a' ∷ b'.' ∷ b'*' ∷ []

abbrev empty_bus : Bus
empty_bus = new_bus 4

abbrev busy_bus : Bus
busy_bus = (subscribe (subscribe empty_bus below).0 subject).0

abbrev config : ConsumerConfig
config = record { stream_name = subject; filter_subject = one_below }

busy_bus-IsFresh : IsFresh busy_bus
busy_bus-IsFresh =
    subscribe-IsFresh (subscribe empty_bus below).0 subject
      (subscribe-IsFresh empty_bus below (new_bus-IsFresh 4))

subject_matches_iff_example :
    (subject_matches below subject ≡ true)
    ↔ ((below ≡ subject) ⊎ Matches (split below) (split subject))
subject_matches_iff_example = subject_matches_iff below subject

targets-unsubscribe-subscribe_example :
    targets
      (unsubscribe (subscribe busy_bus one_below).0 one_below (subscribe busy_bus one_below).1)
      subject
    ≡ targets busy_bus subject
targets-unsubscribe-subscribe_example =
    targets-unsubscribe-subscribe busy_bus one_below subject busy_bus-IsFresh

two_targets : length (targets busy_bus subject) ≡ 2
unfolding targets subscribe new_bus wildcard_targets is_wildcard ends_in_tail has_star
    subject_matches split match_tokens Dict.get Dict.put
two_targets = refl
